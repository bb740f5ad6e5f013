-- ===== src/Cli/Histogram/Percentiles.antt =====
-- Which bucket a percentile names (cli/cmd/histogram.go).
use native.Mathlib.Nat.{mod-eq_of_lt}
use rate_cap.Prelude.{
  ℕ, zero, suc, ◌+◌, ◌%◌, ◌≤◌, ◌<◌, false, List, [], ◌∷◌, ◌≡◌, refl, ap, ◌∙◌, leb, ltb, eqb, length,
  if◌then◌else◌, Bool-cases, inl, inr, arith,
}
use rate_cap.Prelude.Int.{ℤ, pos, negsuc, two_64}
use rate_cap.Cli.Histogram.{
  Histogram, hist_buckets, zeros, new_histogram, bucket_index, bump, add_at, record_sample,
  upper_bound_of, scan, percentile,
}

bucket_index-lt : (log_index : ℕ → ℕ) (us : ℤ) → bucket_index log_index us < hist_buckets
unfolding bucket_index
bucket_index-lt log_index (pos us) = ground arith
bucket_index-lt log_index (negsuc us) = omega arith

-- The samples of a list in the buckets below k.
pub samples_below : (ℕ → ℕ) → ℕ → List ℤ → ℕ
samples_below log_index k [] = 0
samples_below log_index k (us ∷ samples) =
    (if ltb (bucket_index log_index us) k then 1 else 0) + samples_below log_index k samples

-- The first k buckets together.
sum_below : ℕ → List ℕ → ℕ
sum_below zero bs = 0
sum_below (suc k) [] = 0
sum_below (suc k) (b ∷ bs) = b + sum_below k bs

sum_below-le : (k j : ℕ) (bs : List ℕ) → k ≤ j → sum_below k bs ≤ sum_below j bs
unfolding sum_below
sum_below-le zero j bs h = omega arith
sum_below-le (suc k) zero bs h = absurd (omega arith)
sum_below-le (suc k) (suc j) [] h = omega arith
sum_below-le (suc k) (suc j) (b ∷ bs) h = omega (arith, sum_below-le k j bs (omega arith))

length-bump : (i : ℕ) (bs : List ℕ) → length (bump i bs) ≡ length bs
unfolding bump
length-bump i [] = refl
length-bump zero (b ∷ bs) = refl
length-bump (suc i) (b ∷ bs) = omega (arith, length-bump i bs)

-- A bucket is counted up, if nothing overflows.
sum_below-bump :
    (k i : ℕ) (bs : List ℕ)
    → i < length bs
    → sum_below (length bs) bs + 1 < two_64
    → sum_below k (bump i bs) ≡ sum_below k bs + (if ltb i k then 1 else 0)
unfolding sum_below bump
sum_below-bump k i [] h s = absurd (omega arith)
sum_below-bump zero zero (b ∷ bs) h s = ground arith
sum_below-bump zero (suc i) (b ∷ bs) h s = ground arith
sum_below-bump (suc k) zero (b ∷ bs) h s =
    let small : (b + 1) % two_64 ≡ b + 1 = mod-eq_of_lt (omega arith) in rw small (ground arith)
sum_below-bump (suc k) (suc i) (b ∷ bs) h s =
    let ih = sum_below-bump k i bs (omega arith) (omega arith) in ground (arith, ih)

-- The histogram counts the samples.
record Counts (log_index : ℕ → ℕ) (h : Histogram) (samples : List ℤ) : Type 0 where
  all_buckets : length h.buckets ≡ hist_buckets
  total : h.count ≡ length samples
  below : (k : ℕ) → sum_below k h.buckets ≡ samples_below log_index k samples

samples_below-all :
    (log_index : ℕ → ℕ) (samples : List ℤ)
    → samples_below log_index hist_buckets samples ≡ length samples
unfolding samples_below
samples_below-all log_index [] = refl
samples_below-all log_index (us ∷ samples) =
    ground (arith, bucket_index-lt log_index us, samples_below-all log_index samples)

Counts-record :
    (log_index : ℕ → ℕ) (us : ℤ) (h : Histogram) (samples : List ℤ)
    → length samples + 1 < two_64
    → Counts log_index h samples
    → Counts log_index (record_sample log_index us h) (us ∷ samples)
unfolding record_sample add_at samples_below
Counts-record log_index us h samples small c =
    let i = bucket_index log_index us in
    let inside : i < length h.buckets =
      omega (arith, bucket_index-lt log_index us, c.all_buckets) in
    let all : sum_below (length h.buckets) h.buckets + 1 < two_64 = omega (
      arith,
      ap (λ n. sum_below n h.buckets) c.all_buckets,
      c.below hist_buckets,
      samples_below-all log_index samples,
    ) in
    record {
      all_buckets = length-bump i h.buckets ∙ c.all_buckets;
      total = mod-eq_of_lt (omega (arith, c.total)) ∙ omega (arith, c.total);
      below = λ k. omega (arith, sum_below-bump k i h.buckets inside all, c.below k);
    }

sum_below-zeros : (k n : ℕ) → sum_below k (zeros n) ≡ 0
unfolding sum_below
sum_below-zeros zero n = refl
sum_below-zeros (suc k) zero = refl
sum_below-zeros (suc k) (suc n) = omega (arith, sum_below-zeros k n)

length-zeros : (n : ℕ) → length (zeros n) ≡ n
length-zeros zero = refl
length-zeros (suc n) = omega (arith, length-zeros n)

Counts-new : (log_index : ℕ → ℕ) → Counts log_index new_histogram []
unfolding new_histogram samples_below
Counts-new log_index = record {
  all_buckets = length-zeros hist_buckets;
  total = refl;
  below = λ k. sum_below-zeros k hist_buckets;
}

-- The histogram of a list of samples, the latest first.
pub record_all : (ℕ → ℕ) → List ℤ → Histogram
record_all log_index [] = new_histogram
record_all log_index (us ∷ samples) = record_sample log_index us (record_all log_index samples)

Counts-record_all :
    (log_index : ℕ → ℕ) (samples : List ℤ)
    → length samples < two_64
    → Counts log_index (record_all log_index samples) samples
unfolding record_all
Counts-record_all log_index [] h = Counts-new log_index
Counts-record_all log_index (us ∷ samples) h =
    Counts-record log_index us (record_all log_index samples) samples (omega arith)
      (Counts-record_all log_index samples (omega arith))

-- Where the loop stops.
record Stops (target cum i : ℕ) (bs : List ℕ) (j : ℕ) : Type 0 where
  at : scan target cum i bs ≡ upper_bound_of (i + j)
  before : cum + sum_below j bs < target
  reached : target ≤ cum + sum_below (suc j) bs
  inside : j < length bs

Stops-next :
    (target cum i b : ℕ) (bs : List ℕ) (j : ℕ)
    → cum + b < two_64
    → cum + b < target
    → Stops target (cum + b) (suc i) bs j
    → Stops target cum i (b ∷ bs) (suc j)
unfolding scan sum_below
Stops-next target cum i b bs j s more stops =
    let small : (cum + b) % two_64 ≡ cum + b = mod-eq_of_lt s in
    let not_yet : leb target (cum + b) ≡ false = ground arith in
    record {
      at = rw (small, not_yet) (stops.at ∙ ap upper_bound_of (omega arith));
      before = omega (arith, stops.before);
      reached = omega (arith, stops.reached);
      inside = omega (arith, stops.inside);
    }

scan-Stops :
    (target cum i : ℕ) (bs : List ℕ)
    → cum + sum_below (length bs) bs < two_64
    → cum < target
    → target ≤ cum + sum_below (length bs) bs
    → (j : ℕ) × Stops target cum i bs j
unfolding scan sum_below
scan-Stops target cum i [] s l h = absurd (omega arith)
scan-Stops target cum i (b ∷ bs) s l h =
    let small : (cum + b) % two_64 ≡ cum + b = mod-eq_of_lt (omega arith) in
    elim (Bool-cases (leb target (cum + b))) [
      | inl e ↦ (
        0,
        record {
          at = rw (small, e) (ap upper_bound_of (omega arith));
          before = omega arith;
          reached = ground arith;
          inside = omega arith;
        },
      )
      | inr e ↦
          let more : cum + b < target = ground arith in
          let rest = scan-Stops target (cum + b) (suc i) bs (omega arith) more (omega arith) in
          (suc rest.0, Stops-next target cum i b bs rest.0 (omega arith) more rest.1)
    ]

-- A percentile names the bucket that holds the sample of its rank: fewer samples than the rank lie
-- in the buckets before it, and at least as many in those up to it. So it is if the rank is from 1
-- to the number of samples, which is less than 2 ^ 64.
pub percentile-rank :
    (log_index rank : ℕ → ℕ) (samples : List ℤ)
    → length samples < two_64
    → 0 < rank (length samples)
    → rank (length samples) ≤ length samples
    → (k : ℕ) × (percentile rank (record_all log_index samples) ≡ upper_bound_of k)
      × (k < hist_buckets)
      × (samples_below log_index k samples < rank (length samples))
      × (rank (length samples) ≤ samples_below log_index (suc k) samples)
unfolding percentile
percentile-rank log_index rank samples small low high =
    let h = record_all log_index samples in
    let c = Counts-record_all log_index samples small in
    let all : sum_below (length h.buckets) h.buckets ≡ length samples =
      ap (λ n. sum_below n h.buckets) c.all_buckets
      ∙ c.below hist_buckets
      ∙ samples_below-all log_index samples in
    let target = rank (length samples) in
    let (k, stops) =
      scan-Stops target 0 0 h.buckets (omega (arith, all)) low (omega (arith, all)) in
    let nonempty : eqb h.count 0 ≡ false = ground (arith, c.total) in
    (
      k,
      rw (nonempty, c.total) (stops.at ∙ ap upper_bound_of (omega arith)),
      omega (arith, stops.inside, c.all_buckets),
      omega (arith, stops.before, c.below k),
      omega (arith, stops.reached, c.below (suc k)),
    )
