-- ===== src/Cli/Bench.antt =====
-- cli/cmd/bench_run.go: the load generator. The clock, the pacing limiter of x/time/rate and the
-- order in which the goroutines run are parameters: a schedule says who issues a request next,
-- whether its wait for the limiter succeeded, and how long it took. A record and a snapshot each run
-- as one step.
pub mod Command
pub mod Totals
pub mod Windows
use Prim.Native.String.{◌++◌}
use rate_cap.Prelude.{
  ℕ, zero, suc, ◌+◌, ◌%◌, String, Bool, true, false, List, [], ◌∷◌, Option, none, some,
  if◌then◌else◌, ◌⊎◌, inl, inr, eqb,
}
use rate_cap.Prelude.Int.{ℤ, pos, two_64, wrap64}
use rate_cap.Prelude.Itoa.{itoa}
use rate_cap.Limiter.{Error}
use rate_cap.Sidecar.Http.{HttpResponse}
use rate_cap.Sdk.{Ticket}
use rate_cap.Sdk.Requests.{SentRequest}
use rate_cap.Sdk.Client.{call_allow, call_acquire, call_release}
use rate_cap.Cli.Histogram.{Histogram, new_histogram, record_sample, reset, percentile, Bound}

pub data Kind : Type 0 where
  accepted rejected errored : Kind

pub record BenchCounters : Type 0 where
  pub accepted : ℕ
  pub rejected : ℕ
  pub errored : ℕ
  pub hist : Histogram

unfoldable pub new_bench_counters : BenchCounters
new_bench_counters = record { accepted = 0; rejected = 0; errored = 0; hist = new_histogram }

-- `atomic.AddUint64(&n, 1)`
abbrev pub inc : ℕ → ℕ
inc n = (n + 1) % two_64

-- `log_index` is that of the histogram.
unfoldable pub record_kind : (ℕ → ℕ) → Kind → ℤ → BenchCounters → BenchCounters
record_kind log_index accepted elapsed c = record c {
  accepted = inc (BenchCounters.accepted c);
  hist = record_sample log_index elapsed c.hist;
}
record_kind log_index rejected elapsed c = record c { rejected = inc (BenchCounters.rejected c) }
record_kind log_index errored elapsed c = record c { errored = inc (BenchCounters.errored c) }

-- A line of progress, less the seconds, and the counters after it.
pub record Snapshot : Type 0 where
  pub accepted : ℕ
  pub rejected : ℕ
  pub errored : ℕ
  pub p50 : Bound
  pub p99 : Bound

-- `rank_50` and `rank_99` compute the ranks of the two percentiles.
unfoldable pub report_snapshot : (ℕ → ℕ) → (ℕ → ℕ) → BenchCounters → Snapshot × BenchCounters
report_snapshot rank_50 rank_99 c = (
  record {
    accepted = BenchCounters.accepted c;
    rejected = BenchCounters.rejected c;
    errored = BenchCounters.errored c;
    p50 = percentile rank_50 c.hist;
    p99 = percentile rank_99 c.hist;
  },
  record { accepted = 0; rejected = 0; errored = 0; hist = reset c.hist },
)

-- The flags that `issue` reads.
pub record Flags : Type 0 where
  pub key_prefix : String
  pub use_acquire : Bool
  pub shared_key : Bool

unfoldable pub request_key : Flags → ℕ → ℕ → String
request_key f worker seq =
    if f.shared_key
    then f.key_prefix
    else f.key_prefix ++ ("-" ++ (itoa (pos worker) ++ ("-" ++ itoa (pos seq))))

abbrev pub kind_of : Ticket ⊎ Error → Kind
kind_of (inl ticket) = if ticket.allowed then accepted else rejected
kind_of (inr e) = errored

-- A turn of a worker: whether the limiter let it through, and the microseconds it took.
pub record Turn : Type 0 where
  pub worker : ℕ
  pub waited : Bool
  pub elapsed : ℤ

abbrev pub record_issued : (ℕ → ℕ) → Option Kind → ℤ → BenchCounters → BenchCounters
record_issued log_index none elapsed c = c
record_issued log_index (some k) elapsed c = record_kind log_index k elapsed c

abbrev pub jobs_from : ℕ → ℕ → List ℕ
jobs_from seq zero = []
jobs_from seq (suc n) = seq ∷ jobs_from (suc seq) n

-- A step of `runBenchDuration` before the deadline: a turn, or a tick of the reporter.
pub data DurationStep : Type 0 where
  turn : Turn → DurationStep
  report : DurationStep

-- The sequence numbers of the workers, the two sets of counters, and the lines printed, the
-- latest first.
pub record Run (S : Type 0) : Type 0 where
  pub state : S
  pub seqs : ℕ → ℕ
  pub cumulative : BenchCounters
  pub window : BenchCounters
  pub lines : List Snapshot

module _ {S : Type 0} (send : SentRequest → S → (HttpResponse ⊎ Error) × S) (f : Flags) where
  release_after : Ticket ⊎ Error → S → S
  release_after (inl ticket) s = (call_release send ticket.reservations s).1
  release_after (inr e) s = s

  -- The call of the client for one request.
  issue_call : String → S → Kind × S
  unfolding release_after
  issue_call key s =
      if f.use_acquire
      then (let (r, s') = call_acquire send key [] s in (kind_of r, release_after r s'))
      else (let (r, s') = call_allow send key [] s in (kind_of r, s'))

  -- `issue`: `none` where the wait failed, and nothing was sent.
  unfoldable pub issue : Turn → ℕ → S → Option Kind × S
  unfolding issue_call
  issue t seq s =
      if t.waited
      then (let (k, s') = issue_call (request_key f t.worker seq) s in (some k, s'))
      else (none, s)

  -- `runBenchFixedRequests`: the workers take the jobs from the closed channel, in the order of the
  -- schedule, until it is empty.
  unfoldable pub run_jobs : (ℕ → ℕ) → List Turn → List ℕ → S → BenchCounters → S × BenchCounters
  run_jobs log_index [] jobs s c = (s, c)
  run_jobs log_index (t ∷ turns) [] s c = (s, c)
  run_jobs log_index (t ∷ turns) (seq ∷ jobs) s c =
      let (k, s') = issue t seq s in
      run_jobs log_index turns jobs s' (record_issued log_index k t.elapsed c)

  unfoldable pub run_bench_fixed_requests :
      (ℕ → ℕ) → List Turn → ℕ → S → BenchCounters → S × BenchCounters
  unfolding run_jobs
  run_bench_fixed_requests log_index turns requests s c =
      run_jobs log_index turns (jobs_from 0 requests) s c

  duration_step : (ℕ → ℕ) → (ℕ → ℕ) → (ℕ → ℕ) → DurationStep → Run S → Run S
  duration_step log_index rank_50 rank_99 (turn t) r =
      let (k, s') = issue t (r.seqs t.worker) r.state in
      record {
        state = s';
        seqs = λ w. if eqb w t.worker then suc (r.seqs w) else r.seqs w;
        cumulative = record_issued log_index k t.elapsed r.cumulative;
        window = record_issued log_index k t.elapsed r.window;
        lines = r.lines;
      }
  duration_step log_index rank_50 rank_99 report r =
      let (line, window) = report_snapshot rank_50 rank_99 r.window in
      record r { window = window; lines = line ∷ r.lines }

  unfoldable pub run_bench_duration :
      (ℕ → ℕ) → (ℕ → ℕ) → (ℕ → ℕ) → List DurationStep → Run S → Run S
  unfolding duration_step
  run_bench_duration log_index rank_50 rank_99 [] r = r
  run_bench_duration log_index rank_50 rank_99 (st ∷ steps) r =
      run_bench_duration log_index rank_50 rank_99 steps
        (duration_step log_index rank_50 rank_99 st r)

-- The counts of `benchResult`.
pub record BenchResult : Type 0 where
  pub total_requests : ℤ
  pub accepted : ℤ
  pub rejected : ℤ
  pub errored : ℤ

unfoldable pub bench_result : BenchCounters → BenchResult
bench_result c =
    let accepted = BenchCounters.accepted c in
    let rejected = BenchCounters.rejected c in
    let errored = BenchCounters.errored c in
    record {
      total_requests = wrap64 (pos ((accepted + rejected + errored) % two_64));
      accepted = wrap64 (pos accepted);
      rejected = wrap64 (pos rejected);
      errored = wrap64 (pos errored);
    }
