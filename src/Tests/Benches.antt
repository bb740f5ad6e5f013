-- ===== src/Tests/Benches.antt =====
-- The load generator, against a sidecar that answers every other request.
use rate_cap.Prelude.{
  ℕ, suc, ◌+◌, ◌≤◌, ◌<◌, true, false, List, [], ◌∷◌, ◌≡◌, ◌⊎◌, inl, refl, if◌then◌else◌, ltb, arith,
}
use rate_cap.Prelude.Int.{ℤ, pos}
use rate_cap.Limiter.{Error}
use rate_cap.Sidecar.Http.{HttpResponse, http_error}
use rate_cap.Sdk.Requests.{SentRequest}
use rate_cap.Cli.Histogram.{percentile, upper_bound_of, hist_buckets}
use rate_cap.Cli.Histogram.Percentiles.{record_all, samples_below, percentile-rank}
use rate_cap.Cli.Bench.{
  Flags, Turn, DurationStep, turn, report, Run, new_bench_counters, run_bench_fixed_requests,
  run_bench_duration, bench_result,
}
use rate_cap.Cli.Bench.Totals.{total, waited_among, run_bench_fixed_requests-total}
use rate_cap.Cli.Bench.Windows.{AddsUp, run_bench_duration-AddsUp}

abbrev log_index : ℕ → ℕ
log_index us = us

abbrev rank : ℕ → ℕ
rank n = 2

abbrev samples : List ℤ
samples = pos 900 ∷ pos 5 ∷ pos 100 ∷ []

percentile-rank_example :
    (k : ℕ) × (percentile rank (record_all log_index samples) ≡ upper_bound_of k)
    × (k < hist_buckets)
    × (samples_below log_index k samples < 2)
    × (2 ≤ samples_below log_index (suc k) samples)
percentile-rank_example =
    percentile-rank log_index rank samples (omega arith) (omega arith) (omega arith)

-- The first two requests are accepted.
abbrev send : SentRequest → ℕ → (HttpResponse ⊎ Error) × ℕ
send r n = (inl (http_error (if ltb n 2 then 200 else 429)), n + 1)

abbrev flags : Flags
flags = record { key_prefix = "bench"; use_acquire = true; shared_key = false }

abbrev turns : List Turn
turns =
    record { worker = 0; waited = true; elapsed = pos 40 }
    ∷ record { worker = 1; waited = false; elapsed = pos 0 }
    ∷ record { worker = 1; waited = true; elapsed = pos 70 }
    ∷ record { worker = 0; waited = true; elapsed = pos 90 }
    ∷ []

run_bench_fixed_requests-total_example :
    let c = (run_bench_fixed_requests send flags log_index turns 3 0 new_bench_counters).1 in
    ((bench_result c).total_requests ≡ pos (waited_among 3 turns))
    × (pos c.hist.count ≡ (bench_result c).accepted)
run_bench_fixed_requests-total_example =
    run_bench_fixed_requests-total send flags log_index turns 3 0 (omega arith)

abbrev at_start : Run ℕ
at_start = record {
  state = 0;
  seqs = λ w. 0;
  cumulative = new_bench_counters;
  window = new_bench_counters;
  lines = [];
}

abbrev steps : List DurationStep
steps =
    turn (record { worker = 0; waited = true; elapsed = pos 40 })
    ∷ report
    ∷ turn (record { worker = 1; waited = true; elapsed = pos 70 })
    ∷ []

run_bench_duration-AddsUp_example :
    let r = run_bench_duration send flags log_index rank rank steps at_start in
    AddsUp r.lines r.window r.cumulative
unfolding total new_bench_counters
run_bench_duration-AddsUp_example =
    run_bench_duration-AddsUp send flags log_index rank rank steps at_start (omega arith)
      (record { accepted = refl; rejected = refl; errored = refl })
