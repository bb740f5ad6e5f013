-- ===== src/Cli/Histogram.antt =====
-- cli/cmd/histogram.go: the histogram of latencies. The logarithm of floats is a parameter, the
-- function `log_index` from microseconds to `int(ratio * 2048)`, and so is the rank
-- `uint64(math.Ceil(p * count))`.
pub mod Percentiles
use rate_cap.Prelude.{
  ℕ, zero, suc, ◌+◌, ◌-◌, ◌%◌, List, [], ◌∷◌, Option, none, some, leb, ltb, eqb, if◌then◌else◌,
}
use rate_cap.Prelude.Int.{ℤ, pos, negsuc, two_64}

abbrev pub hist_buckets : ℕ
hist_buckets = 2048

pub record Histogram : Type 0 where
  pub buckets : List ℕ
  pub count : ℕ

abbrev pub zeros : ℕ → List ℕ
zeros zero = []
zeros (suc n) = 0 ∷ zeros n

unfoldable pub new_histogram : Histogram
new_histogram = record { buckets = zeros hist_buckets; count = 0 }

-- `Microseconds()` up to 0.01 ms, from 60 s on, and between.
unfoldable pub bucket_index : (ℕ → ℕ) → ℤ → ℕ
bucket_index log_index (negsuc us) = 0
bucket_index log_index (pos us) =
    if leb us 10
    then 0
    else (if leb 60000000 us
        then hist_buckets - 1
        else (if leb hist_buckets (log_index us) then hist_buckets - 1 else log_index us))

-- `buckets[idx]++` on uint64
bump : ℕ → List ℕ → List ℕ
bump i [] = []
bump zero (b ∷ bs) = (b + 1) % two_64 ∷ bs
bump (suc i) (b ∷ bs) = b ∷ bump i bs

unfoldable pub add_at : ℕ → Histogram → Histogram
unfolding bump
add_at idx h = record { buckets = bump idx h.buckets; count = (h.count + 1) % two_64 }

-- `Record`
unfoldable pub record_sample : (ℕ → ℕ) → ℤ → Histogram → Histogram
record_sample log_index us h = add_at (bucket_index log_index us) h

-- What `Percentile` returns: 0, the upper bound of a bucket, or histMaxMs.
pub data Bound : Type 0 where
  no_samples : Bound
  upper_bound_of : ℕ → Bound
  hist_max : Bound

-- The loop over the buckets, from the index i on, `cum` samples before it.
scan : ℕ → ℕ → ℕ → List ℕ → Bound
scan target cum i [] = hist_max
scan target cum i (b ∷ bs) =
    let rest = scan target ((cum + b) % two_64) (suc i) bs in
    if leb target ((cum + b) % two_64) then upper_bound_of i else rest

unfoldable pub percentile : (ℕ → ℕ) → Histogram → Bound
unfolding scan
percentile rank h = if eqb h.count 0 then no_samples else scan (rank h.count) 0 0 h.buckets

reset_buckets : List ℕ → List ℕ
reset_buckets [] = []
reset_buckets (b ∷ bs) = 0 ∷ reset_buckets bs

unfoldable pub reset : Histogram → Histogram
unfolding reset_buckets
reset h = record { buckets = reset_buckets h.buckets; count = 0 }
