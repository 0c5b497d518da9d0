-- ===== src/Metrics/Rates.antt =====
-- What a snapshot says of the calls since the sample before.
use edgevision_rv1126b.Prelude.{
  ℕ, suc, ◌+◌, ◌-◌, ◌^◌, ◌<◌, ◌≡◌, refl, true, List, [], ◌∷◌, arith, length, le→ltb,
}
use edgevision_rv1126b.Metrics.{
  Doubles, Counters, MetricsCollector, ProcSample, record_capture, record_encode, record_ai,
  record_bytes_sent, record_event_written, record_encode_queue_drop, record_ai_queue_drop,
  safe_rate, average_ms, sub64, sample,
}

-- A call of one of the threads.
pub data Update : Type 0 where
  captured event_written encode_queue_drop ai_queue_drop : Update
  encoded inferred sent : (n : ℕ) → Update

unfoldable pub raise : Update → Counters → Counters
unfolding record_capture record_encode record_ai record_bytes_sent record_event_written
    record_encode_queue_drop record_ai_queue_drop
raise captured c = record_capture c
raise event_written c = record_event_written c
raise encode_queue_drop c = record_encode_queue_drop c
raise ai_queue_drop c = record_ai_queue_drop c
raise (encoded us) c = record_encode us c
raise (inferred us) c = record_ai us c
raise (sent bytes) c = record_bytes_sent bytes c

unfoldable pub raise_all : List Update → Counters → Counters
unfolding raise
raise_all [] c = c
raise_all (update ∷ updates) c = raise_all updates (raise update c)

abbrev pub sum : List ℕ → ℕ
sum [] = 0
sum (n ∷ ns) = n + sum ns

-- The frames captured, and the times of the frames encoded and inferred, in a list of calls.
unfoldable pub captures : List Update → ℕ
captures [] = 0
captures (captured ∷ updates) = suc (captures updates)
captures (_ ∷ updates) = captures updates

unfoldable pub encode_times : List Update → List ℕ
encode_times [] = []
encode_times (encoded us ∷ updates) = us ∷ encode_times updates
encode_times (_ ∷ updates) = encode_times updates

unfoldable pub inference_times : List Update → List ℕ
inference_times [] = []
inference_times (inferred us ∷ updates) = us ∷ inference_times updates
inference_times (_ ∷ updates) = inference_times updates

unfoldable pub bytes : List Update → ℕ
bytes [] = 0
bytes (sent n ∷ updates) = n + bytes updates
bytes (_ ∷ updates) = bytes updates

abbrev Grown : Counters → List Update → Counters → Type 0
Grown c updates after =
    (after.captured_frames ≡ c.captured_frames + captures updates)
    × (after.encoded_frames ≡ c.encoded_frames + length (encode_times updates))
    × (after.encode_time_us_total ≡ c.encode_time_us_total + sum (encode_times updates))
    × (after.ai_frames ≡ c.ai_frames + length (inference_times updates))
    × (after.inference_time_us_total ≡ c.inference_time_us_total + sum (inference_times updates))
    × (after.bytes_sent ≡ c.bytes_sent + bytes updates)

-- No counter that is read below wraps in the calls.
pub record Fits (c : Counters) (updates : List Update) : Type 0 where
  pub frames : c.captured_frames + captures updates < 2 ^ 64
  pub encodes : c.encoded_frames + length (encode_times updates) < 2 ^ 64
  pub encode_time : c.encode_time_us_total + sum (encode_times updates) < 2 ^ 64
  pub inferences : c.ai_frames + length (inference_times updates) < 2 ^ 64
  pub inference_time : c.inference_time_us_total + sum (inference_times updates) < 2 ^ 64
  pub sent_bytes : c.bytes_sent + bytes updates < 2 ^ 64

Fits-raise :
    (update : Update) (updates : List Update) (c : Counters)
    → Fits c (update ∷ updates)
    → Fits (raise update c) updates
unfolding raise captures encode_times inference_times bytes
Fits-raise captured updates c fits = omega arith
Fits-raise _ updates c fits = omega arith

Grown-raise :
    (update : Update) (updates : List Update) (c after : Counters)
    → Fits c (update ∷ updates)
    → Grown (raise update c) updates after
    → Grown c (update ∷ updates) after
unfolding raise captures encode_times inference_times bytes
Grown-raise captured updates c after fits grown = omega arith
Grown-raise _ updates c after fits grown = omega arith

raise_all-Grown :
    (updates : List Update) (c : Counters) → Fits c updates → Grown c updates (raise_all updates c)
unfolding raise_all captures encode_times inference_times bytes
raise_all-Grown [] c fits = omega arith
raise_all-Grown (update ∷ updates) c fits =
    Grown-raise update updates c (raise_all updates (raise update c)) fits
      (raise_all-Grown updates (raise update c) (Fits-raise update updates c fits))

-- `a + n - a` of two `uint64_t`.
sub64-add : (a n : ℕ) → a + n < 2 ^ 64 → sub64 (a + n) a ≡ n
unfolding sub64
sub64-add a n h = omega arith

module _ (db : Doubles) where
  -- The mean of times in microseconds, in milliseconds, and 0 for no time.
  unfoldable pub mean_ms : List ℕ → db.Double
  mean_ms [] = db.of_nat 0
  mean_ms (us ∷ times) =
      db.divided (db.divided (db.of_nat (us + sum times)) (db.of_nat (suc (length times))))
        (db.of_nat 1000)

  -- The time between two clock readings, in seconds.
  abbrev pub seconds_between : ℕ → ℕ → db.Double
  seconds_between first second = db.divided (db.of_nat (sub64 second first)) (db.of_nat 1000000)

  safe_rate-add :
      (a n : ℕ) (seconds : db.Double)
      → db.is_positive seconds ≡ true
      → safe_rate db (a + n) a seconds ≡ db.divided (db.of_nat n) seconds
  unfolding safe_rate
  safe_rate-add a n seconds h =
      let same : a + n - a ≡ n = omega arith in rw (h, le→ltb (a + n) a (omega arith), same)

  average_ms-mean : (times : List ℕ) → average_ms db (sum times) (length times) ≡ mean_ms times
  unfolding average_ms mean_ms
  average_ms-mean [] = refl
  average_ms-mean (us ∷ times) = ground arith

  -- Between two samples that see the counters at rest, with a positive time between them and no counter
  -- that wraps: the rates of the second are the calls of `recordCapture`, `recordEncode` and `recordAi`
  -- since the first per second, whatever else was called, each call counts once, the averages are the
  -- means of the times of just these calls, and the bytes are the old ones and those sent since.
  pub sample-since :
      (m : MetricsCollector) (first second : ℕ) (before now : ProcSample) (updates : List Update)
      → Fits m.counters updates
      → db.is_positive (seconds_between first second) ≡ true
      → let (sampled, _) = sample db m first m.counters before in
        let after = raise_all updates m.counters in
        let (_, snapshot) = sample db (record sampled { counters = after }) second after now in
        let seconds = seconds_between first second in
        (snapshot.capture_fps ≡ db.divided (db.of_nat (captures updates)) seconds)
        × (snapshot.encode_fps ≡ db.divided (db.of_nat (length (encode_times updates))) seconds)
        × (snapshot.ai_fps ≡ db.divided (db.of_nat (length (inference_times updates))) seconds)
        × (snapshot.average_encode_ms ≡ mean_ms (encode_times updates))
        × (snapshot.average_inference_ms ≡ mean_ms (inference_times updates))
        × (snapshot.bytes_sent ≡ m.counters.bytes_sent + bytes updates)
  unfolding sample
  sample-since m first second before now updates fits positive =
      let (frames, encodes, encode_time, inferences, inference_time, total) =
        raise_all-Grown updates m.counters fits in
      (
        rw frames (safe_rate-add m.counters.captured_frames (captures updates) _ positive),
        rw encodes
            (safe_rate-add m.counters.encoded_frames (length (encode_times updates)) _ positive),
        rw inferences
            (safe_rate-add m.counters.ai_frames (length (inference_times updates)) _ positive),
        mean m.counters.encoded_frames m.counters.encode_time_us_total (encode_times updates)
            encodes encode_time fits.encodes fits.encode_time,
        mean m.counters.ai_frames m.counters.inference_time_us_total (inference_times updates)
            inferences inference_time fits.inferences fits.inference_time,
        total,
      )
    where
      mean :
          (n t : ℕ) (times : List ℕ) {n' t' : ℕ}
          → n' ≡ n + length times
          → t' ≡ t + sum times
          → n + length times < 2 ^ 64
          → t + sum times < 2 ^ 64
          → average_ms db (sub64 t' t) (sub64 n' n) ≡ mean_ms times
      mean n t times e f h k =
          rw (e, f, sub64-add n (length times) h, sub64-add t (sum times) k) (average_ms-mean times)
