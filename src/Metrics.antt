-- ===== src/Metrics.antt =====
-- MetricsCollector of metrics/src/MetricsCollector.cpp: the counters that all threads raise, and the
-- snapshot of a sample. `double` is an interface. `sample` is given what its loads of the counters see,
-- the clock and the state of the process, since other threads may raise a counter between two loads.
pub mod Extraction
pub mod Proc
pub mod Rates
mod Tests
use edgevision_rv1126b.Prelude.{
  ℕ, ◌+◌, ◌-◌, ◌*◌, ◌%◌, ◌^◌, Bool, true, false, not, ◌&&◌, ◌||◌, ltb, if◌then◌else◌,
}
use edgevision_rv1126b.Prelude.Int.{ℤ, pos, pos_part, ltb_ℤ}

pub record Doubles : Type 1 where
  pub Double : Type 0
  -- `static_cast<double>` of a `uint64_t`.
  pub of_nat : ℕ → Double
  pub divided : Double → Double → Double
  pub times : Double → Double → Double
  -- `x > 0.0`.
  pub is_positive : Double → Bool
  -- `static_cast<uint64_t>(ms * 1000.0)`.
  pub micros : Double → ℕ

abbrev pub u64 : ℕ → ℕ
u64 n = n % 2 ^ 64

-- `a - b` of two `uint64_t`.
unfoldable pub sub64 : ℕ → ℕ → ℕ
sub64 a b = (a + 2 ^ 64 - b) % 2 ^ 64

pub record Counters : Type 0 where
  pub captured_frames : ℕ
  pub encoded_frames : ℕ
  pub ai_frames : ℕ
  pub bytes_sent : ℕ
  pub events_written : ℕ
  pub encode_queue_drops : ℕ
  pub ai_queue_drops : ℕ
  pub encode_time_us_total : ℕ
  pub inference_time_us_total : ℕ

pub record ProcSample : Type 0 where
  pub total_jiffies : ℕ
  pub process_jiffies : ℕ
  pub rss_pages : ℕ
  pub valid : Bool

-- The page size is the `uint64_t` to which it is converted.
pub record MetricsCollector : Type 0 where
  pub counters : Counters
  pub last_capture_frames : ℕ
  pub last_encoded_frames : ℕ
  pub last_ai_frames : ℕ
  pub last_encode_time_us_total : ℕ
  pub last_inference_time_us_total : ℕ
  pub last_sample_time_us : ℕ
  pub last_proc_sample : ProcSample
  pub page_size : ℕ
  pub cpu_cores : ℤ

abbrev pub zeros : Counters
zeros = record {
  captured_frames = 0;
  encoded_frames = 0;
  ai_frames = 0;
  bytes_sent = 0;
  events_written = 0;
  encode_queue_drops = 0;
  ai_queue_drops = 0;
  encode_time_us_total = 0;
  inference_time_us_total = 0;
}

-- The constructor, over the clock, the two answers of `sysconf` and the first sample of the process.
unfoldable pub create : ℕ → ℕ → ℤ → ProcSample → MetricsCollector
create now page_size cpu_cores proc_sample = record {
  counters = zeros;
  last_capture_frames = 0;
  last_encoded_frames = 0;
  last_ai_frames = 0;
  last_encode_time_us_total = 0;
  last_inference_time_us_total = 0;
  last_sample_time_us = now;
  last_proc_sample = proc_sample;
  page_size = page_size;
  cpu_cores = cpu_cores;
}

unfoldable pub record_capture : Counters → Counters
record_capture c = record c { captured_frames = u64 (c.captured_frames + 1) }

-- The time in microseconds, as `micros` gives it.
unfoldable pub record_encode : ℕ → Counters → Counters
record_encode us c = record c {
  encoded_frames = u64 (c.encoded_frames + 1);
  encode_time_us_total = u64 (c.encode_time_us_total + us);
}

unfoldable pub record_ai : ℕ → Counters → Counters
record_ai us c = record c {
  ai_frames = u64 (c.ai_frames + 1);
  inference_time_us_total = u64 (c.inference_time_us_total + us);
}

unfoldable pub record_bytes_sent : ℕ → Counters → Counters
record_bytes_sent bytes c = record c { bytes_sent = u64 (c.bytes_sent + bytes) }

unfoldable pub record_event_written : Counters → Counters
record_event_written c = record c { events_written = u64 (c.events_written + 1) }

unfoldable pub record_encode_queue_drop : Counters → Counters
record_encode_queue_drop c = record c { encode_queue_drops = u64 (c.encode_queue_drops + 1) }

unfoldable pub record_ai_queue_drop : Counters → Counters
record_ai_queue_drop c = record c { ai_queue_drops = u64 (c.ai_queue_drops + 1) }

-- What `sample` keeps for the next one.
unfoldable pub keep_sample : MetricsCollector → ℕ → Counters → ProcSample → MetricsCollector
keep_sample m now seen proc_sample = record m {
  last_capture_frames = seen.captured_frames;
  last_encoded_frames = seen.encoded_frames;
  last_ai_frames = seen.ai_frames;
  last_encode_time_us_total = seen.encode_time_us_total;
  last_inference_time_us_total = seen.inference_time_us_total;
  last_sample_time_us = now;
  last_proc_sample = proc_sample;
}

module _ (db : Doubles) where
  pub record MetricsSnapshot : Type 0 where
    pub timestamp_us : ℕ
    pub capture_fps : db.Double
    pub encode_fps : db.Double
    pub ai_fps : db.Double
    pub average_encode_ms : db.Double
    pub average_inference_ms : db.Double
    pub cpu_percent : db.Double
    pub rss_mb : db.Double
    pub bytes_sent : ℕ
    pub events_written : ℕ
    pub encode_queue_drops : ℕ
    pub ai_queue_drops : ℕ

  unfoldable pub safe_rate : ℕ → ℕ → db.Double → db.Double
  safe_rate current previous interval_seconds =
      if not (db.is_positive interval_seconds) || ltb current previous
      then db.of_nat 0
      else db.divided (db.of_nat (current - previous)) interval_seconds

  -- `sample`, the time since the sample before.
  unfoldable pub interval_seconds : MetricsCollector → ℕ → db.Double
  unfolding sub64
  interval_seconds m now =
      db.divided (db.of_nat (sub64 now m.last_sample_time_us)) (db.of_nat 1000000)

  -- The average time in milliseconds of the frames of an interval; the default is 0.
  unfoldable pub average_ms : ℕ → ℕ → db.Double
  average_ms time_us frames =
      if ltb 0 frames
      then db.divided (db.divided (db.of_nat time_us) (db.of_nat frames)) (db.of_nat 1000)
      else db.of_nat 0

  unfoldable pub cpu_percent : MetricsCollector → ProcSample → db.Double
  unfolding sub64
  cpu_percent m proc_sample =
      let total_delta = sub64 proc_sample.total_jiffies m.last_proc_sample.total_jiffies in
      let proc_delta = sub64 proc_sample.process_jiffies m.last_proc_sample.process_jiffies in
      if proc_sample.valid && m.last_proc_sample.valid
      then if ltb 0 total_delta && ltb_ℤ (pos 0) m.cpu_cores
        then db.times
            (db.times (db.divided (db.of_nat proc_delta) (db.of_nat total_delta)) (db.of_nat 100))
            (db.of_nat (pos_part m.cpu_cores))
        else db.of_nat 0
      else db.of_nat 0

  unfoldable pub rss_mb : MetricsCollector → ProcSample → db.Double
  rss_mb m proc_sample =
      if proc_sample.valid && m.last_proc_sample.valid
      then db.divided
          (db.divided (db.of_nat (u64 (proc_sample.rss_pages * m.page_size))) (db.of_nat 1024))
          (db.of_nat 1024)
      else db.of_nat 0

  unfoldable pub snapshot_of : MetricsCollector → ℕ → Counters → ProcSample → MetricsSnapshot
  unfolding safe_rate interval_seconds average_ms cpu_percent rss_mb sub64
  snapshot_of m now seen proc_sample =
      let interval = interval_seconds m now in
      record {
        timestamp_us = now;
        capture_fps = safe_rate seen.captured_frames m.last_capture_frames interval;
        encode_fps = safe_rate seen.encoded_frames m.last_encoded_frames interval;
        ai_fps = safe_rate seen.ai_frames m.last_ai_frames interval;
        average_encode_ms =
            average_ms (sub64 seen.encode_time_us_total m.last_encode_time_us_total)
              (sub64 seen.encoded_frames m.last_encoded_frames);
        average_inference_ms =
            average_ms (sub64 seen.inference_time_us_total m.last_inference_time_us_total)
              (sub64 seen.ai_frames m.last_ai_frames);
        cpu_percent = cpu_percent m proc_sample;
        rss_mb = rss_mb m proc_sample;
        bytes_sent = seen.bytes_sent;
        events_written = seen.events_written;
        encode_queue_drops = seen.encode_queue_drops;
        ai_queue_drops = seen.ai_queue_drops;
      }

  unfoldable pub sample :
      MetricsCollector → ℕ → Counters → ProcSample → MetricsCollector × MetricsSnapshot
  unfolding keep_sample snapshot_of
  sample m now seen proc_sample =
      (keep_sample m now seen proc_sample, snapshot_of m now seen proc_sample)
