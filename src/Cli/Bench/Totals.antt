-- ===== src/Cli/Bench/Totals.antt =====
-- What the load generator counts (cli/cmd/bench_run.go).
use native.Mathlib.Nat.{mod-eq_of_lt}
use rate_cap.Prelude.{
  ℕ, zero, suc, ◌+◌, ◌%◌, ◌≤◌, ◌<◌, Option, none, some, List, [], ◌∷◌, ◌≡◌, refl, ap, sym, ◌∙◌, ◌⊎◌,
  length, if◌then◌else◌, Bool-cases, inl, inr, arith,
}
use rate_cap.Prelude.Int.{ℤ, pos, two_63, two_64, wrap64_fits}
use rate_cap.Limiter.{Error}
use rate_cap.Sidecar.Http.{HttpResponse}
use rate_cap.Sdk.Requests.{SentRequest}
use rate_cap.Cli.Histogram.{new_histogram, record_sample, add_at}
use rate_cap.Cli.Bench.{
  Kind, BenchCounters, new_bench_counters, record_kind, record_issued, Flags, Turn, issue,
  jobs_from, run_jobs, run_bench_fixed_requests, bench_result,
}

-- All requests counted.
unfoldable pub total : BenchCounters → ℕ
total c = BenchCounters.accepted c + BenchCounters.rejected c + BenchCounters.errored c

abbrev counted : Option Kind → ℕ
counted none = 0
counted (some k) = 1

counted_le_one : (k : Option Kind) → counted k ≤ 1
counted_le_one none = omega arith
counted_le_one (some k) = omega arith

-- The turns among the first n that the limiter lets through.
pub waited_among : ℕ → List Turn → ℕ
waited_among zero turns = 0
waited_among (suc n) [] = 0
waited_among (suc n) (t ∷ turns) = (if t.waited then 1 else 0) + waited_among n turns

waited_among-le : (n : ℕ) (turns : List Turn) → waited_among n turns ≤ n
unfolding waited_among
waited_among-le zero turns = omega arith
waited_among-le (suc n) [] = omega arith
waited_among-le (suc n) (t ∷ turns) = ground (arith, waited_among-le n turns)

-- The result is exact below 2 ^ 63.
bench_result_exact :
    (c : BenchCounters)
    → total c < two_63
    → ((bench_result c).total_requests ≡ pos (total c))
      × ((bench_result c).accepted ≡ pos (BenchCounters.accepted c))
unfolding bench_result total
bench_result_exact c h =
    let small : (BenchCounters.accepted c + BenchCounters.rejected c + BenchCounters.errored c)
          % two_64
        ≡ BenchCounters.accepted c + BenchCounters.rejected c + BenchCounters.errored c =
      mod-eq_of_lt (omega arith) in
    (rw small (wrap64_fits (total c) h), wrap64_fits (BenchCounters.accepted c) (omega arith))

total-new :
    (total new_bench_counters ≡ 0)
    × (new_bench_counters.hist.count ≡ BenchCounters.accepted new_bench_counters)
unfolding total new_bench_counters new_histogram
total-new = (refl, refl)

module _ (log_index : ℕ → ℕ) where
  total-record_issued :
      (k : Option Kind) (elapsed : ℤ) (c : BenchCounters)
      → total c + 1 < two_64
      → total (record_issued log_index k elapsed c) ≡ total c + counted k
  unfolding total record_kind
  total-record_issued none elapsed c h = omega arith
  total-record_issued (some Kind.accepted) elapsed c h =
      let up : (BenchCounters.accepted c + 1) % two_64 ≡ BenchCounters.accepted c + 1 =
        mod-eq_of_lt (omega arith) in
      omega (arith, up)
  total-record_issued (some Kind.rejected) elapsed c h =
      let up : (BenchCounters.rejected c + 1) % two_64 ≡ BenchCounters.rejected c + 1 =
        mod-eq_of_lt (omega arith) in
      omega (arith, up)
  total-record_issued (some Kind.errored) elapsed c h =
      let up : (BenchCounters.errored c + 1) % two_64 ≡ BenchCounters.errored c + 1 =
        mod-eq_of_lt (omega arith) in
      omega (arith, up)

  -- The samples are the accepted requests.
  count-record_issued :
      (k : Option Kind) (elapsed : ℤ) (c : BenchCounters)
      → c.hist.count ≡ BenchCounters.accepted c
      → (record_issued log_index k elapsed c).hist.count
        ≡ BenchCounters.accepted (record_issued log_index k elapsed c)
  unfolding record_kind record_sample add_at
  count-record_issued none elapsed c h = h
  count-record_issued (some Kind.accepted) elapsed c h = ap (λ n. (n + 1) % two_64) h
  count-record_issued (some Kind.rejected) elapsed c h = h
  count-record_issued (some Kind.errored) elapsed c h = h

module _ {S : Type 0} (send : SentRequest → S → (HttpResponse ⊎ Error) × S) (f : Flags)
    (log_index : ℕ → ℕ) where
  issue-counted :
      (t : Turn) (seq : ℕ) (s : S) → counted (issue send f t seq s).0 ≡ (if t.waited then 1 else 0)
  unfolding issue
  issue-counted t seq s = elim (Bool-cases t.waited) [ inl e ↦ rw e refl | inr e ↦ rw e refl ]

  record Ran (turns : List Turn) (jobs : List ℕ) (c c' : BenchCounters) : Type 0 where
    all : total c' ≡ total c + waited_among (length jobs) turns
    samples : c'.hist.count ≡ BenchCounters.accepted c'

  run_jobs-Ran :
      (turns : List Turn) (jobs : List ℕ) (s : S) (c : BenchCounters)
      → total c + length jobs < two_64
      → c.hist.count ≡ BenchCounters.accepted c
      → Ran turns jobs c (run_jobs send f log_index turns jobs s c).1
  unfolding run_jobs waited_among
  run_jobs-Ran [] [] s c h e = record { all = omega arith; samples = e }
  run_jobs-Ran [] (seq ∷ jobs) s c h e = record { all = omega arith; samples = e }
  run_jobs-Ran (t ∷ turns) [] s c h e = record { all = omega arith; samples = e }
  run_jobs-Ran (t ∷ turns) (seq ∷ jobs) s c h e =
      let p = issue send f t seq s in
      let one = issue-counted t seq s in
      let c' = record_issued log_index p.0 t.elapsed c in
      let more = total-record_issued log_index p.0 t.elapsed c (omega arith) in
      let most : counted p.0 ≤ 1 = counted_le_one p.0 in
      let rest =
        run_jobs-Ran turns jobs p.1 c' (omega (arith, more, most))
          (count-record_issued log_index p.0 t.elapsed c e) in
      record { all = omega (arith, rest.all, more, one); samples = rest.samples }

  length-jobs_from : (seq n : ℕ) → length (jobs_from seq n) ≡ n
  length-jobs_from seq zero = refl
  length-jobs_from seq (suc n) = omega (arith, length-jobs_from (suc seq) n)

  -- A run for a fixed number of requests, below 2 ^ 63, counts each request that the limiter let
  -- through exactly once, under any schedule of the workers, and has taken the latency of exactly
  -- those that were accepted.
  pub run_bench_fixed_requests-total :
      (turns : List Turn) (requests : ℕ) (s : S)
      → requests < two_63
      → let c = (run_bench_fixed_requests send f log_index turns requests s new_bench_counters).1 in
        ((bench_result c).total_requests ≡ pos (waited_among requests turns))
        × (pos c.hist.count ≡ (bench_result c).accepted)
  unfolding run_bench_fixed_requests
  run_bench_fixed_requests-total turns requests s h =
      let jobs = jobs_from 0 requests in
      let c = (run_jobs send f log_index turns jobs s new_bench_counters).1 in
      let size = length-jobs_from 0 requests in
      let ran =
        run_jobs-Ran turns jobs s new_bench_counters (omega (arith, size, total-new)) total-new.1 in
      let all : total c ≡ waited_among requests turns =
        omega (arith, ran.all, total-new) ∙ ap (λ n. waited_among n turns) size in
      let exact = bench_result_exact c (omega (arith, all, waited_among-le requests turns)) in
      (exact.0 ∙ ap pos all, ap pos ran.samples ∙ sym exact.1)
