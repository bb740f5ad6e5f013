-- ===== src/Cli/Bench/Command.antt =====
-- cli/cmd/bench_run.go: `runBench`, and the command around it. The formatting of numbers and of
-- JSON, the order of the turns, and the commands that are run are parameters; cobra gives the flags.
use mathlib.Core.List.{reverse}
use Prim.Native.String.{◌++◌ as ◌+++◌}
use rate_cap.Prelude.{
  ℕ, String, Bool, List, [], ◌∷◌, ◌++◌, Option, none, some, is_some, if◌then◌else◌, ◌==◌, ◌⊎◌,
}
use rate_cap.Prelude.Int.{ℤ, pos, leb_ℤ, ltb_ℤ, pos_part}
use rate_cap.Limiter.{Error}
use rate_cap.Process.Environment.{split_comma}
use rate_cap.Sidecar.Http.{HttpResponse}
use rate_cap.Sdk.Requests.{SentRequest}
use rate_cap.Cli.Histogram.{percentile, Bound}
use rate_cap.Cli.Root.{Outcome, Writer, write_all}
use rate_cap.Cli.Resources.{Runner, ResourceSnapshot, capture_resources, print_resource_section}
use rate_cap.Cli.Bench.{
  BenchCounters, new_bench_counters, BenchResult, bench_result, Snapshot, Flags, Turn, DurationStep,
  Run, run_bench_fixed_requests, run_bench_duration,
}

-- The flags of the command, with those that `issue` reads in `issue_flags`.
pub record BenchFlags : Type 0 where
  pub issue_flags : Flags
  pub requests : ℤ
  pub json_output : Bool
  pub duration : ℤ
  pub report_interval : ℤ
  pub capture : Bool
  pub docker_containers : String
  pub redis_addr : String

-- `benchResult`, less the throughput, which is computed from the total and the time.
pub record BenchReport : Type 0 where
  pub counts : BenchResult
  pub elapsed_ms : ℤ
  pub p50 : Bound
  pub p99 : Bound
  pub p999 : Bound
  pub shared_key : Bool
  pub resource_before : Option ResourceSnapshot
  pub resource_after : Option ResourceSnapshot

-- The index of a sample's bucket, the ranks of the percentiles, the order of the turns, and the time
-- of the run.
pub record Measured : Type 0 where
  pub log_index : ℕ → ℕ
  pub rank_50 : ℕ → ℕ
  pub rank_99 : ℕ → ℕ
  pub rank_999 : ℕ → ℕ
  pub turns : List Turn
  pub steps : List DurationStep
  pub elapsed_ms : ℤ

-- The standard output, the runner before and after the run, and the texts that are printed.
pub record Terminal : Type 0 where
  pub out : Writer
  pub before : Runner
  pub after : Runner
  pub encode : BenchReport → String
  pub summary : BenchReport → List String
  pub progress_line : Snapshot → String

module _ {S : Type 0} (send : SentRequest → S → (HttpResponse ⊎ Error) × S) (m : Measured) where
  first_run : S → Run S
  first_run s = record {
    state = s;
    seqs = λ w. 0;
    cumulative = new_bench_counters;
    window = new_bench_counters;
    lines = [];
  }

  report_of : Bool → BenchCounters → BenchReport
  report_of shared_key c = record {
    counts = bench_result c;
    elapsed_ms = m.elapsed_ms;
    p50 = percentile m.rank_50 c.hist;
    p99 = percentile m.rank_99 c.hist;
    p999 = percentile m.rank_999 c.hist;
    shared_key = shared_key;
    resource_before = none;
    resource_after = none;
  }

  timed_run : BenchFlags → S → BenchReport × List Snapshot × S
  unfolding first_run report_of
  timed_run f s =
      let r =
        run_bench_duration send f.issue_flags m.log_index m.rank_50 m.rank_99 m.steps
          (first_run s) in
      (report_of f.issue_flags.shared_key r.cumulative, reverse r.lines, r.state)

  counted_run : BenchFlags → S → BenchReport × List Snapshot × S
  unfolding report_of
  counted_run f s =
      let (s', c) =
        run_bench_fixed_requests send f.issue_flags m.log_index m.turns (pos_part f.requests) s
          new_bench_counters in
      (report_of f.issue_flags.shared_key c, [], s')

  -- The result, the progress in order, and the sidecar; `none` is a panic, of a ticker whose interval
  -- is not positive, or of a channel whose size is negative.
  unfoldable pub run_bench : BenchFlags → S → Option (BenchReport × List Snapshot × S)
  unfolding timed_run counted_run
  run_bench f s =
      if ltb_ℤ (pos 0) f.duration
      then (if leb_ℤ f.report_interval (pos 0) then none else some (timed_run f s))
      else (if ltb_ℤ f.requests (pos 0) then none else some (counted_run f s))

  module _ (t : Terminal) where
    -- A line of progress that cannot be written is dropped.
    best_effort : List String → List String
    best_effort [] = []
    best_effort (line ∷ lines) =
        let rest = best_effort lines in if is_some (t.out line) then rest else line ∷ rest

    abbrev progress_lines : List Snapshot → List String
    progress_lines [] = []
    progress_lines (s ∷ ss) = t.progress_line s ∷ progress_lines ss

    -- The second writes if the first has not failed.
    and_then : Outcome → Outcome → Outcome
    and_then a b = elim a.err [ some e ↦ a | none ↦ record b { out = a.out ++ b.out } ]

    shared_line : Bool → List String
    shared_line b =
        if b
        then "Shared key: every request contended for the same key — percentiles above include any tier-2 queueing wait, not just unqueued per-request overhead\n"
          ∷ []
        else []

    print_summary : BenchReport → Outcome
    unfolding and_then shared_line
    print_summary r = and_then (write_all t.out (t.summary r ++ shared_line r.shared_key)) (
        and_then (print_resource_section t.out "before" r.resource_before)
          (print_resource_section t.out "after" r.resource_after))

    snapshot_of : BenchFlags → Runner → Option ResourceSnapshot
    snapshot_of f run =
        if f.capture
        then some (
            capture_resources run
              (if f.docker_containers == ""
                then []
                else (let (part, parts) = split_comma f.docker_containers in part ∷ parts))
              f.redis_addr)
        else none

    with_resources : BenchFlags → BenchReport → BenchReport
    unfolding snapshot_of
    with_resources f result = record result {
      resource_before = snapshot_of f t.before;
      resource_after = snapshot_of f t.after;
    }

    after_run : BenchFlags → BenchReport × List Snapshot × S → Outcome × S
    unfolding with_resources print_summary best_effort and_then
    after_run f (result, lines, s) =
        let r = with_resources f result in
        (
          if f.json_output
              then write_all t.out ((t.encode r +++ "\n") ∷ [])
              else and_then (record { out = best_effort (progress_lines lines); err = none })
                  (print_summary r),
          s,
        )

    unless_panic : BenchFlags → Option (BenchReport × List Snapshot × S) → Option (Outcome × S)
    unfolding after_run
    unless_panic f none = none
    unless_panic f (some r) = some (after_run f r)

    -- The command's `RunE`. Progress goes to the output, unless JSON does.
    unfoldable pub bench_run : BenchFlags → S → Option (Outcome × S)
    unfolding unless_panic
    bench_run f s = unless_panic f (run_bench f s)
