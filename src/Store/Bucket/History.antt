-- ===== src/Store/Bucket/History.antt =====
-- What a bucket of tokens means, told by the requests that it granted
-- (services/core/store/lua/token_bucket.lua).
use rate_cap.Prelude.{
  ℕ, ◌+◌, ◌-◌, ◌*◌, ◌≤◌, Bool, true, ◌&&◌, List, [], ◌∷◌, ◌≡◌, ◌↔◌, sym, subst, leb, if◌then◌else◌,
  arith,
}
use native.Mathlib.Decide.{dec_le}
use rate_cap.Store.Bucket.Budget.{join_spans}
use rate_cap.Store.Bucket.Natural.{refilled}

-- A history holds (time, thousandths granted), the latest first. `fits` asks, for every time in
-- it, that what was granted from then on and `total` stay within the burst and what the rate gives
-- for the time since.
pub fits : ℕ → ℕ → ℕ → ℕ → List (ℕ × ℕ) → Bool
fits r b now total [] = true
fits r b now total ((u, g) ∷ past) =
    leb (total + g) (b * 1000 + (now - u) * r) && fits r b now (total + g) past

-- The limiter that keeps the history in place of a bucket.
unfoldable pub by_windows : ℕ → ℕ → List (ℕ × ℕ) → List (ℕ × ℕ) → List Bool
by_windows r b past [] = []
by_windows r b past ((now, c) ∷ h) =
    let granted = leb (c * 1000) (b * 1000) && fits r b now (c * 1000) past in
    granted ∷ by_windows r b ((now, if granted then c * 1000 else 0) ∷ past) h

module _ (r b : ℕ) where
  abbrev pub Within : ℕ → ℕ → List (ℕ × ℕ) → Type 0
  Within now total [] = Unit {0}
  Within now total ((u, g) ∷ past) =
      (total + g ≤ b * 1000 + (now - u) * r) × Within now (total + g) past

  -- Every time of the history is at most `now`.
  abbrev pub Until : ℕ → List (ℕ × ℕ) → Type 0
  Until now [] = Unit {0}
  Until now ((u, g) ∷ past) = (u ≤ now) × Until u past

  pub fits-Within :
      (now total : ℕ) (past : List (ℕ × ℕ))
      → (fits r b now total past ≡ true) ↔ Within now total past
  unfolding fits
  fits-Within now total [] = ground arith
  fits-Within now total ((u, g) ∷ past) = ground (arith, fits-Within now (total + g) past)

  Within-mono :
      (now total total' : ℕ) (past : List (ℕ × ℕ))
      → total' ≤ total
      → Within now total past
      → Within now total' past
  Within-mono now total total' [] le w = tt
  Within-mono now total total' ((u, g) ∷ past) le w =
      (omega arith, Within-mono now (total + g) (total' + g) past (omega arith) w.1)

  pub Until-mono :
      (now now' : ℕ) (past : List (ℕ × ℕ)) → now ≤ now' → Until now past → Until now' past
  Until-mono now now' [] le w = tt
  Until-mono now now' ((u, g) ∷ past) le w = (omega arith, w.1)

  -- The refilled thousandths for a stretch of time can be granted on top.
  Within-later :
      (now now' total : ℕ) (past : List (ℕ × ℕ))
      → now ≤ now'
      → Until now past
      → Within now total past ↔ Within now' (total + (now' - now) * r) past
  Within-later now now' total [] le w = ground arith
  Within-later now now' total ((u, g) ∷ past) le w =
      let d = (now' - now) * r in
      let spans = join_spans u now now' r w.0 le in
      let ih = Within-later now now' (total + g) past le (Until-mono u now past w.0 w.1) in
      let e : total + g + d ≡ total + d + g = omega arith in
      (
        λ h. (omega (arith, h.0, spans), subst (λ x. Within now' x past) e (ih.0 h.1)),
        λ h. (omega (arith, h.0, spans), ih.1 (subst (λ x. Within now' x past) (sym e) h.1)),
      )

  -- The bucket holds `t` at the time `u`: at any later time it can pay what fits the history.
  pub record Means (t u : ℕ) (past : List (ℕ × ℕ)) : Type 0 where
    pub until : Until u past
    pub pays :
        (now y : ℕ) → u ≤ now → (y ≤ refilled t u r b now) ↔ ((y ≤ b * 1000) × Within now y past)

  pub Means-fits :
      (t u now c : ℕ) (past : List (ℕ × ℕ))
      → Means t u past
      → u ≤ now
      → leb c (refilled t u r b now) ≡ (leb c (b * 1000) && fits r b now c past)
  Means-fits t u now c past m le = ground (arith, fits-Within now c past, m.pays now c le)

  -- What `y` may cost at `later`, after a grant of g thousandths at `now`.
  pays-after :
      (t u now g t' later y : ℕ) (past : List (ℕ × ℕ))
      → Means t u past
      → u ≤ now
      → now ≤ later
      → t' + g ≡ refilled t u r b now
      → y ≤ t' + (later - now) * r
      → (y + g ≤ b * 1000 + (later - now) * r) × Within later (y + g) past
  pays-after t u now g t' later y past m le h e p =
      let d = (later - now) * r in
      let z = y + g - d in
      let paid = (m.pays now z le).0 (omega (arith, e, p)) in
      let shifted = (Within-later now later z past h (Until-mono u now past le m.until)).0 paid.1 in
      (omega (arith, paid.0), Within-mono later (z + d) (y + g) past (omega arith) shifted)

  pays-before :
      (t u now g t' later y : ℕ) (past : List (ℕ × ℕ))
      → Means t u past
      → u ≤ now
      → now ≤ later
      → t' + g ≡ refilled t u r b now
      → y + g ≤ b * 1000 + (later - now) * r
      → Within later (y + g) past
      → y ≤ t' + (later - now) * r
  pays-before t u now g t' later y past m le h e fit w =
      let d = (later - now) * r in
      let z = y + g - d in
      elim (dec_le d (y + g)) [
        | yes big ↦
            let back : z + d ≡ y + g = omega arith in
            let shifted =
              (Within-later now later z past h (Until-mono u now past le m.until)).1
                (subst (λ x. Within later x past) (sym back) w) in
            omega (arith, e, back, (m.pays now z le).1 (omega (arith, fit, back), shifted))
        | no small ↦ omega arith
      ]

  pub Means-step :
      (t u now g t' : ℕ) (past : List (ℕ × ℕ))
      → Means t u past
      → u ≤ now
      → t' + g ≡ refilled t u r b now
      → Means t' now ((now, g) ∷ past)
  Means-step t u now g t' past m le e = record {
    until = (omega arith, Until-mono u now past le m.until);
    pays = λ later y h. (
      λ p.
          let after = pays-after t u now g t' later y past m le h e (omega (arith, p)) in
          (omega (arith, p), after),
      λ q. omega (arith, q.0, pays-before t u now g t' later y past m le h e q.1.0 q.1.1),
    );
  }

  pub Means-new : (u : ℕ) → Means (b * 1000) u []
  Means-new u = record {
    until = tt;
    pays = λ now y h. (λ p. (omega (arith, p), tt), λ q. omega (arith, q));
  }
