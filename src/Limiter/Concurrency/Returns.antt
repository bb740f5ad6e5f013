-- ===== src/Limiter/Concurrency/Returns.antt =====
-- What a release takes off the ledger: the one slot that it names, if that slot is held.
use mathlib.Core.List.{Perm, Memᴰ, mem-cons_self, Perm-prop}
use mathlib.Core.List.Memᴰ
use mathlib.Core.List.Perm
use text.Mathlib.TextPositions.{eq_refl as str_refl}
use std.Logic.{∥∥₁_elim}
use rate_cap.Prelude.{
  Bool, true, ◌&&◌, List, [], ◌∷◌, ◌==◌, eq_iff, ◌≡◌, ap, subst, inl, inr, Bool-cases, arith,
}
use rate_cap.Limiter.{TokenReservation}
use rate_cap.Limiter.Concurrency.Ledger.{remove}

-- A slot is its key and its token.
abbrev is_slot : TokenReservation → TokenReservation → Bool
is_slot r x = (x.key == r.key) && (x.token == r.token)

is_slot-eq : (r x : TokenReservation) → is_slot r x ≡ true → x ≡ r
is_slot-eq r x e =
    let k = (eq_iff x.key r.key).0 (ground (arith, e)) in
    let t = (eq_iff x.token r.token).0 (ground (arith, e)) in λ i. record { key = k i; token = t i }

is_slot_refl : (r : TokenReservation) → is_slot r r ≡ true
is_slot_refl r = ground (arith, str_refl r.key, str_refl r.token)

remove_held :
    (r : TokenReservation) (xs : List TokenReservation)
    → Memᴰ r xs
    → Perm xs (r ∷ remove r.key r.token xs)
remove_held r [] m = elim m [ ]
remove_held r (x ∷ xs) m = elim (Bool-cases (is_slot r x)) [
  | inl e ↦ rw e (subst (λ y. Perm (x ∷ xs) (y ∷ xs)) (is_slot-eq r x e) (Perm.refl (x ∷ xs)))
  | inr e ↦ elim (Memᴰ.cases_cons m) [
    | inl same ↦ absurd (ground (arith, ap (is_slot r) same, is_slot_refl r, e))
    | inr later ↦ rw e (
        Perm.trans (Perm.cons x (remove_held r xs later)) (Perm.swap r x (remove r.key r.token xs)))
  ]
]

-- A slot that is held is taken away, and no other.
pub remove-Perm :
    (r : TokenReservation) (xs ys : List TokenReservation)
    → Perm xs (r ∷ ys)
    → Perm (remove r.key r.token xs) ys
remove-Perm r xs ys p =
    ∥∥₁_elim (Perm.subset (Perm.symm p) r mem-cons_self) Perm-prop
      (λ m. Perm.cons_inv (Perm.trans (Perm.symm (remove_held r xs m)) p))
