-- ===== src/Metrics/Tests.antt =====
-- Two samples, one second apart.
use edgevision_rv1126b.Prelude.{
  ℕ, ◌+◌, ◌*◌, ◌/◌, ◌≡◌, refl, true, List, [], ◌∷◌, arith, ltb, length,
}
use edgevision_rv1126b.Prelude.Int.{pos}
use edgevision_rv1126b.Metrics.{Doubles, MetricsCollector, ProcSample, create, sample, sub64}
use edgevision_rv1126b.Metrics.Rates.{
  Update, captured, encoded, inferred, sent, encode_queue_drop, raise_all, captures, encode_times,
  inference_times, bytes, Fits, mean_ms, seconds_between, sample-since,
}

-- Whole numbers in the place of doubles.
abbrev whole : Doubles
whole = record {
  Double = ℕ;
  of_nat = λ n. n;
  divided = λ a b. a / b;
  times = λ a b. a * b;
  is_positive = ltb 0;
  micros = λ ms. ms * 1000;
}

abbrev proc : ProcSample
proc = record { total_jiffies = 0; process_jiffies = 0; rss_pages = 0; valid = true }

abbrev collector : MetricsCollector
collector = create 0 4096 (pos 4) proc

abbrev updates : List Update
updates =
    captured
    ∷ encoded 3000
    ∷ captured
    ∷ sent 100
    ∷ encoded 5000
    ∷ encode_queue_drop
    ∷ inferred 40000
    ∷ sent 50
    ∷ []

updates-Fits : Fits collector.counters updates
unfolding create captures encode_times inference_times bytes
updates-Fits = omega arith

mean_test : mean_ms whole (encode_times updates) ≡ 4
unfolding mean_ms encode_times
mean_test = refl

positive : ltb 0 (seconds_between whole 1000000 2000000) ≡ true
unfolding sub64
positive = refl

sample-since_example :
    let (sampled, _) = sample whole collector 1000000 collector.counters proc in
    let after = raise_all updates collector.counters in
    let (_, snapshot) = sample whole (record sampled { counters = after }) 2000000 after proc in
    let seconds = seconds_between whole 1000000 2000000 in
    (snapshot.capture_fps ≡ captures updates / seconds)
    × (snapshot.encode_fps ≡ length (encode_times updates) / seconds)
    × (snapshot.ai_fps ≡ length (inference_times updates) / seconds)
    × (snapshot.average_encode_ms ≡ mean_ms whole (encode_times updates))
    × (snapshot.average_inference_ms ≡ mean_ms whole (inference_times updates))
    × (snapshot.bytes_sent ≡ collector.counters.bytes_sent + bytes updates)
sample-since_example =
    sample-since whole collector 1000000 2000000 proc proc updates updates-Fits positive
