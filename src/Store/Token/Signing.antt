-- ===== src/Store/Token/Signing.antt =====
-- A token is accepted exactly if it was signed under the key (services/core/store/redis.go and
-- services/core/grpcserver/server.go).
use Prim.Native.Char.{code}
use Prim.Native.String.{◌++◌}
use Prim.Native.String.append.{nil, cons}
use text.Mathlib.TextPositions.{eq_refl}
use text.Mathlib.TextEquality.{Char-path}
use rate_cap.Prelude.{
  refl, sym, Option, ap, ◌∙◌, inl, inr, Bool-cases, Option-cases, String, true, false, none, some,
  ◌≡◌, eqb, ◌==◌, eq_iff, arith,
}
use rate_cap.Store.Token.{cut_dot, sign_token, verify_parts, verify_token}

-- A candidate's uuid has no dot.
abbrev pub NoDot : String → Type 0
NoDot String.[] = Unit
NoDot (String.◌∷◌ c s) = (eqb (code c) b'.' ≡ false) × NoDot s

dot_cons : (m : String) → "." ++ m ≡ String.◌∷◌ "." m
dot_cons m = cons "." "" m ∙ ap (String.◌∷◌ ".") (nil m)

cut_dot-sign : (u m : String) → NoDot u → cut_dot (u ++ ("." ++ m)) ≡ some (u, m)
unfolding cut_dot
cut_dot-sign String.[] m h = ap cut_dot (nil ("." ++ m) ∙ dot_cons m)
cut_dot-sign (String.◌∷◌ c u) m h =
    ap cut_dot (cons c u ("." ++ m)) ∙ rw (h.0, cut_dot-sign u m h.1) refl

abbrev parts : Option (String × String) → String × String
parts none = ("", "")
parts (some p) = p

-- What `strings.Cut` finds puts the string together again.
cut_dot_joins : (s u m : String) → cut_dot s ≡ some (u, m) → s ≡ u ++ ("." ++ m)
unfolding cut_dot
cut_dot_joins String.[] u m h = absurd cc
cut_dot_joins (String.◌∷◌ c s) u m h = elim (Bool-cases (eqb (code c) b'.')) [
  | inl e ↦
      let dot : c ≡ "." = Char-path c "." (ground arith) in
      let found : some ("", s) ≡ some (u, m) = sym (rw e refl) ∙ h in
      ap (λ x. String.◌∷◌ x s) dot
      ∙ ap (String.◌∷◌ ".") (ap (λ o. (parts o).1) found)
      ∙ sym (nil ("." ++ m) ∙ dot_cons m)
      ∙ ap (λ o. (parts o).0 ++ ("." ++ m)) found
  | inr e ↦ elim (Option-cases (cut_dot s)) [
    | inl n ↦ absurd (ground arith)
    | inr ((v, t), q) ↦
        let found : some (String.◌∷◌ c v, t) ≡ some (u, m) = sym (rw (e, q) refl) ∙ h in
        ap (String.◌∷◌ c) (cut_dot_joins s v t q)
        ∙ sym (cons c v ("." ++ t))
        ∙ ap (λ o. (parts o).0 ++ ("." ++ (parts o).1)) found
  ]
]

module _ (mac : String → String → String) where
  -- A token is accepted under the key that signed it, if the uuid has no dot.
  pub verify_token-sign_token :
      (candidate_uuid signing_key : String)
      → NoDot candidate_uuid
      → verify_token mac (sign_token mac candidate_uuid signing_key) signing_key ≡ true
  unfolding verify_token verify_parts sign_token
  verify_token-sign_token u k h = rw (cut_dot-sign u (mac k u) h) (eq_refl (mac k u))

  -- A token that is accepted under a key is one that the key signs: without the key's MAC of some
  -- text there is no other.
  pub verify_token_sound :
      (token signing_key : String)
      → verify_token mac token signing_key ≡ true
      → (u : String) × (token ≡ sign_token mac u signing_key)
  unfolding verify_token verify_parts sign_token
  verify_token_sound token k h = elim (Option-cases (cut_dot token)) [
    | inl n ↦ absurd (ground arith)
    | inr ((u, m), q) ↦ (
      u,
      cut_dot_joins token u m q
          ∙ ap (λ x. u ++ ("." ++ x))
              ((eq_iff m (mac k u)).0 (sym (ap (verify_parts mac k) q) ∙ h)),
    )
  ]

  verify_empty : (signing_key : String) → verify_token mac "" signing_key ≡ false
  unfolding verify_token verify_parts cut_dot
  verify_empty signing_key = refl

  -- A token that is accepted is not empty.
  pub verify_token-ne-empty :
      (token signing_key : String)
      → verify_token mac token signing_key ≡ true
      → (token == "") ≡ false
  verify_token-ne-empty token signing_key v = elim (Bool-cases (token == "")) [
    | inl e ↦ absurd (
        ground (
          arith,
          ap (λ t. verify_token mac t signing_key) ((eq_iff token "").0 e),
          verify_empty signing_key,
          v,
        ))
    | inr e ↦ e
  ]
