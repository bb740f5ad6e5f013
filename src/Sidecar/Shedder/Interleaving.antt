-- ===== src/Sidecar/Shedder/Interleaving.antt =====
-- Tier 4 under any interleaving of the goroutines of the sidecar (services/sidecar/worker/shedder.go).
use rate_cap.Prelude.{
  ◌↔◌, ℕ, zero, suc, true, false, List, [], ◌∷◌, ◌+◌, ◌≤◌, ◌<◌, ap, ◌∙◌, if◌then◌else◌, ◌≡◌, arith,
  sym, inl, inr, Bool-cases,
}
use rate_cap.Prelude.Int.{ℤ, pos, negsuc, ◌+ℤ◌, eqb_ℤ, leb_ℤ, wrap64, two_63, wrap64_fits, sub_ℕ_le}
use rate_cap.Sidecar.Shedder.{Shedder, admits, release}

-- Where a goroutine stands: outside, between the load and the swap of `Allow` with the value that
-- it loaded, or between a true `Allow` and its `Release`.
pub data Goroutine : Type 0 where
  outside : Goroutine
  loaded : ℤ → Goroutine
  inside : Goroutine

-- The atomic steps: the load, with the guards on what it read; the swap, which another goroutine
-- may have made fail, and then the loop begins again; the release.
step : Shedder → ℕ → Goroutine → ℤ → Goroutine × ℤ
step s draw outside inflight =
    (if admits s draw inflight then loaded inflight else outside, inflight)
step s draw (loaded current) inflight =
    if eqb_ℤ inflight current then (inside, wrap64 (current +ℤ pos 1)) else (outside, inflight)
step s draw inside inflight = (outside, release inflight)

-- One step of the goroutine number i.
unfoldable pub step_at : Shedder → ℕ → ℕ → List Goroutine → ℤ → List Goroutine × ℤ
unfolding step
step_at s draw i [] inflight = ([], inflight)
step_at s draw zero (g ∷ gs) inflight =
    let (g', inflight') = step s draw g inflight in (g' ∷ gs, inflight')
step_at s draw (suc i) (g ∷ gs) inflight =
    let (gs', inflight') = step_at s draw i gs inflight in (g ∷ gs', inflight')

-- A schedule says who steps, and what the random source draws.
unfoldable pub run : Shedder → List (ℕ × ℕ) → List Goroutine → ℤ → List Goroutine × ℤ
run s [] gs inflight = (gs, inflight)
run s ((i, draw) ∷ schedule) gs inflight =
    let (gs', inflight') = step_at s draw i gs inflight in run s schedule gs' inflight'

abbrev pub count_inside : List Goroutine → ℕ
count_inside [] = 0
count_inside (outside ∷ gs) = count_inside gs
count_inside (loaded current ∷ gs) = count_inside gs
count_inside (inside ∷ gs) = suc (count_inside gs)

-- The guards have passed what was loaded.
abbrev pub Passed : Shedder → List Goroutine → Type 0
Passed s [] = Unit
Passed s (outside ∷ gs) = Passed s gs
Passed s (loaded current ∷ gs) = (leb_ℤ s.max current ≡ false) × Passed s gs
Passed s (inside ∷ gs) = Passed s gs

pub release-suc : (n : ℕ) → n < two_63 → release (pos (suc n)) ≡ pos n
unfolding release
release-suc n h =
    ap wrap64 (sub_ℕ_le (suc n) 1 (omega arith) ∙ ap pos (omega arith)) ∙ wrap64_fits n h

admits_below :
    (s : Shedder) (draw : ℕ) (current : ℤ)
    → admits s draw current ≡ true
    → leb_ℤ s.max current ≡ false
unfolding admits
admits_below s draw current h = ground (arith, h)

eqb_ℤ_iff : (a b : ℤ) → (eqb_ℤ a b ≡ true) ↔ (a ≡ b)
eqb_ℤ_iff (pos a) (pos b) = ground arith
eqb_ℤ_iff (pos a) (negsuc b) = ground arith
eqb_ℤ_iff (negsuc a) (pos b) = ground arith
eqb_ℤ_iff (negsuc a) (negsuc b) = ground arith

module _ (s : Shedder) (m : ℕ) where
  -- `c` goroutines that are not in the list are inside.
  abbrev Counts : ℕ → List Goroutine × ℤ → Type 0
  Counts c (gs, inflight) =
      (inflight ≡ pos (c + count_inside gs)) × (c + count_inside gs ≤ m) × Passed s gs

  -- The swap succeeds: the value loaded, below the cap, is still the counter.
  swapped :
      (current : ℤ) (gs : List Goroutine) (inflight : ℤ) (c : ℕ)
      → s.max ≡ pos m
      → m < two_63
      → Counts c (loaded current ∷ gs, inflight)
      → inflight ≡ current
      → Counts c (inside ∷ gs, wrap64 (current +ℤ pos 1))
  swapped current gs inflight c e b h q =
      let now : current ≡ pos (c + count_inside gs) = sym q ∙ h.0 in
      let below : suc (c + count_inside gs) ≤ m = ground (
        arith,
        (sym (ap (λ x. leb_ℤ x (pos (c + count_inside gs))) e)
            ∙ sym (ap (leb_ℤ s.max) now)
            ∙ h.2.0),
      ) in
      (
        ap (λ x. wrap64 (x +ℤ pos 1)) now
            ∙ ap wrap64 (ap pos (omega arith))
            ∙ wrap64_fits (c + suc (count_inside gs)) (omega (arith, below, b)),
        omega (arith, below),
        h.2.1,
      )

  step_at-Counts :
      (draw i c : ℕ) (gs : List Goroutine) (inflight : ℤ)
      → s.max ≡ pos m
      → m < two_63
      → Counts c (gs, inflight)
      → Counts c (step_at s draw i gs inflight)
  unfolding step_at step
  step_at-Counts draw i c [] inflight e b h = h
  step_at-Counts draw zero c (outside ∷ gs) inflight e b h =
      ground (arith, admits_below s draw inflight)
  step_at-Counts draw zero c (loaded current ∷ gs) inflight e b h =
      elim (Bool-cases (eqb_ℤ inflight current)) [
        | inl q ↦ rw q (swapped current gs inflight c e b h ((eqb_ℤ_iff inflight current).0 q))
        | inr q ↦ rw q (h.0, h.1, h.2.1)
      ]
  step_at-Counts draw zero c (inside ∷ gs) inflight e b h = (
    ap release h.0
        ∙ ap release {x = pos (c + suc (count_inside gs))} (ap pos (omega arith))
        ∙ release-suc (c + count_inside gs) (omega (arith, h.1, b)),
    omega (arith, h.1),
    h.2,
  )
  step_at-Counts draw (suc i) c (outside ∷ gs) inflight e b h =
      step_at-Counts draw i c gs inflight e b h
  step_at-Counts draw (suc i) c (loaded current ∷ gs) inflight e b h =
      let r = step_at-Counts draw i c gs inflight e b (h.0, h.1, h.2.1) in (r.0, r.1, (h.2.0, r.2))
  step_at-Counts draw (suc i) c (inside ∷ gs) inflight e b h =
      let r =
        step_at-Counts draw i (suc c) gs inflight e b
          (h.0 ∙ ap pos (omega arith), omega (arith, h.1), h.2) in
      (r.0 ∙ ap pos (omega arith), omega (arith, r.1), r.2)

  -- If the counter is the number of the requests inside, at most the cap, and every value that
  -- was loaded is below the cap, then so it stays under every schedule and every draw.
  pub run-Counts :
      (schedule : List (ℕ × ℕ)) (gs : List Goroutine) (inflight : ℤ)
      → s.max ≡ pos m
      → m < two_63
      → Counts 0 (gs, inflight)
      → Counts 0 (run s schedule gs inflight)
  unfolding run
  run-Counts [] gs inflight e b h = h
  run-Counts ((i, draw) ∷ schedule) gs inflight e b h =
      let (gs', inflight') = step_at s draw i gs inflight in
      run-Counts schedule gs' inflight' e b (step_at-Counts draw i 0 gs inflight e b h)
