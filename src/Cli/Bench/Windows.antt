-- ===== src/Cli/Bench/Windows.antt =====
-- The lines of progress of a run for a duration, and its result (cli/cmd/bench_run.go).
use native.Mathlib.Nat.{mod-eq_of_lt}
use rate_cap.Prelude.{ℕ, ◌+◌, ◌≤◌, ◌<◌, Option, none, some, List, [], ◌∷◌, ◌≡◌, ◌⊎◌, length, arith}
use rate_cap.Prelude.Int.{ℤ, two_64}
use rate_cap.Limiter.{Error}
use rate_cap.Sidecar.Http.{HttpResponse}
use rate_cap.Sdk.Requests.{SentRequest}
use rate_cap.Cli.Bench.{
  inc, Kind, BenchCounters, record_kind, record_issued, Snapshot, report_snapshot, Flags, issue,
  DurationStep, turn, report, Run, duration_step, run_bench_duration,
}
use rate_cap.Cli.Bench.Totals.{total}

-- What the lines and the window hold together.
abbrev sum_lines : (Snapshot → ℕ) → List Snapshot → ℕ
sum_lines field [] = 0
sum_lines field (l ∷ ls) = field l + sum_lines field ls

-- The lines printed so far and the window in progress add up to the cumulative counts, kind by kind.
pub record AddsUp (lines : List Snapshot) (window cumulative : BenchCounters) : Type 0 where
  pub accepted :
      sum_lines Snapshot.accepted lines + BenchCounters.accepted window
      ≡ BenchCounters.accepted cumulative
  pub rejected :
      sum_lines Snapshot.rejected lines + BenchCounters.rejected window
      ≡ BenchCounters.rejected cumulative
  pub errored :
      sum_lines Snapshot.errored lines + BenchCounters.errored window
      ≡ BenchCounters.errored cumulative

inc_fits : (n : ℕ) → n + 1 < two_64 → inc n ≡ n + 1
inc_fits n h = mod-eq_of_lt h

module _ (log_index : ℕ → ℕ) where
  record_issued-AddsUp :
      (lines : List Snapshot) (window cumulative : BenchCounters) (k : Option Kind) (elapsed : ℤ)
      → total cumulative + 1 < two_64
      → AddsUp lines window cumulative
      → AddsUp lines
          (record_issued log_index k elapsed window)
          (record_issued log_index k elapsed cumulative)
        × (total (record_issued log_index k elapsed cumulative) ≤ total cumulative + 1)
  unfolding record_kind total
  record_issued-AddsUp lines window cumulative none elapsed h a = (a, omega arith)
  record_issued-AddsUp lines window cumulative (some Kind.accepted) elapsed h a =
      let up = inc_fits (BenchCounters.accepted cumulative) (omega arith) in
      let up' = inc_fits (BenchCounters.accepted window) (omega (arith, a.accepted)) in
      (
        record {
          accepted = omega (arith, up, up', a.accepted);
          rejected = a.rejected;
          errored = a.errored;
        },
        omega (arith, up),
      )
  record_issued-AddsUp lines window cumulative (some Kind.rejected) elapsed h a =
      let up = inc_fits (BenchCounters.rejected cumulative) (omega arith) in
      let up' = inc_fits (BenchCounters.rejected window) (omega (arith, a.rejected)) in
      (
        record {
          accepted = a.accepted;
          rejected = omega (arith, up, up', a.rejected);
          errored = a.errored;
        },
        omega (arith, up),
      )
  record_issued-AddsUp lines window cumulative (some Kind.errored) elapsed h a =
      let up = inc_fits (BenchCounters.errored cumulative) (omega arith) in
      let up' = inc_fits (BenchCounters.errored window) (omega (arith, a.errored)) in
      (
        record {
          accepted = a.accepted;
          rejected = a.rejected;
          errored = omega (arith, up, up', a.errored);
        },
        omega (arith, up),
      )

module _ {S : Type 0} (send : SentRequest → S → (HttpResponse ⊎ Error) × S) (f : Flags) where
  module _ (log_index rank_50 rank_99 : ℕ → ℕ) where
    duration_step-AddsUp :
        (st : DurationStep) (r : Run S)
        → total r.cumulative + 1 < two_64
        → AddsUp r.lines r.window r.cumulative
        → let r' = duration_step send f log_index rank_50 rank_99 st r in
          AddsUp r'.lines r'.window r'.cumulative × (total r'.cumulative ≤ total r.cumulative + 1)
    unfolding duration_step
    duration_step-AddsUp (turn t) r h a =
        record_issued-AddsUp log_index r.lines r.window r.cumulative
          (issue send f t (r.seqs t.worker) r.state).0 t.elapsed h a
    duration_step-AddsUp report r h a =
        unfold report_snapshot in
        (
          record {
            accepted = omega (arith, a.accepted);
            rejected = omega (arith, a.rejected);
            errored = omega (arith, a.errored);
          },
          omega arith,
        )

    -- Whatever the workers and the reporter do in whatever order, the lines printed and the window in
    -- progress add up to the counts of the whole run, if they did before and the counts stay below
    -- 2 ^ 64.
    pub run_bench_duration-AddsUp :
        (steps : List DurationStep) (r : Run S)
        → total r.cumulative + length steps < two_64
        → AddsUp r.lines r.window r.cumulative
        → let r' = run_bench_duration send f log_index rank_50 rank_99 steps r in
          AddsUp r'.lines r'.window r'.cumulative
    unfolding run_bench_duration
    run_bench_duration-AddsUp [] r h a = a
    run_bench_duration-AddsUp (st ∷ steps) r h a =
        let step = duration_step-AddsUp st r (omega arith) a in
        run_bench_duration-AddsUp steps (duration_step send f log_index rank_50 rank_99 st r)
          (omega (arith, step.1)) step.0
