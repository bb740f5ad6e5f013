-- ===== src/Sidecar/NegativeCache/Laws.antt =====
-- The negative cache answers for a key as long as the denial that it holds, whatever it swept.
use text.Mathlib.TextPositions.{eq_refl}
use rate_cap.Prelude.{
  String, Bool, true, false, [], ◌∷◌, Option, none, some, if◌then◌else◌, ◌==◌, ltb, length,
  Option-cases, ◌≡◌, refl, arith, eq_iff, inl, inr, Bool-cases, ap, ◌∙◌, sym,
}
use rate_cap.Prelude.Int.{ℤ, pos, negsuc, ◌+ℤ◌, ◌≤ℤ◌}
use rate_cap.Sidecar.NegativeCache.{
  Denied, find, delete, put, after, sweep_locked, mark_denied, is_denied, time_sub, answer,
  sweep_threshold,
}

-- A Go map has each key once.
abbrev pub Distinct : Denied → Type 0
Distinct [] = Unit
Distinct ((k, until) ∷ m) = (find k m ≡ none) × Distinct m

find-delete :
    (key j : String) (m : Denied) → find j (delete key m) ≡ (if key == j then none else find j m)
unfolding find delete
find-delete key j [] = ground arith
find-delete key j ((k, until) ∷ m) =
    ground (arith, find-delete key j m, eq_iff k key, eq_iff k j, eq_iff key j)

delete-Distinct : (key : String) (m : Denied) → Distinct m → Distinct (delete key m)
unfolding find delete
delete-Distinct key [] d = tt
delete-Distinct key ((k, until) ∷ m) d =
    ground (arith, delete-Distinct key m d.1, find-delete key k m)

pub put-Distinct : (key : String) (until : ℤ) (m : Denied) → Distinct m → Distinct (put key until m)
put-Distinct key until m d =
    (find-delete key key m ∙ rw (eq_refl key) refl, delete-Distinct key m d)

-- What a sweep keeps of an entry.
abbrev alive : ℤ → Option ℤ → Option ℤ
alive now none = none
alive now (some until) = if after now until then none else some until

find-sweep_locked :
    (now : ℤ) (key : String) (m : Denied)
    → Distinct m
    → find key (sweep_locked now m) ≡ alive now (find key m)
unfolding find sweep_locked
find-sweep_locked now key [] d = refl
find-sweep_locked now key ((k, until) ∷ m) d = elim (Bool-cases (k == key)) [
  | inl e ↦
      ground (
        arith,
        find-sweep_locked now key m d.1,
        ap (λ j. find j m) (sym ((eq_iff k key).0 e)) ∙ d.0,
      )
  | inr e ↦ ground (arith, find-sweep_locked now key m d.1)
]

sweep_locked-Distinct : (now : ℤ) (m : Denied) → Distinct m → Distinct (sweep_locked now m)
unfolding find sweep_locked
sweep_locked-Distinct now [] d = tt
sweep_locked-Distinct now ((k, until) ∷ m) d =
    ground (arith, sweep_locked-Distinct now m d.1, find-sweep_locked now k m d.1)

-- Every operation keeps each key once.
pub mark_denied-Distinct :
    (key : String) (retry_after now sweep_now : ℤ) (m : Denied)
    → Distinct m
    → Distinct (mark_denied key retry_after now sweep_now m)
unfolding mark_denied
mark_denied-Distinct key retry_after now sweep_now m d =
    let p = put-Distinct key (now +ℤ retry_after) m d in
    ground (arith, p, sweep_locked-Distinct sweep_now (put key (now +ℤ retry_after) m) p)

-- What a caller hears of an entry.
abbrev heard : ℤ → Option ℤ → Bool × ℤ
heard now none = (false, pos 0)
heard now (some until) = if after now until then (false, pos 0) else (true, time_sub until now)

is_denied_lem :
    (key : String) (now : ℤ) (m : Denied) → (is_denied key now m).0 ≡ heard now (find key m)
unfolding is_denied answer
is_denied_lem key now m = elim (Option-cases (find key m)) [
  | inl e ↦ rw e refl
  | inr (until, e) ↦ ground arith
]

after_trans : (a b c : ℤ) → a ≤ℤ b → after a c ≡ true → after b c ≡ true
after_trans (pos a) (pos b) (pos c) h e = ground arith
after_trans (pos a) (pos b) (negsuc c) h e = refl
after_trans (pos a) (negsuc b) c h e = absurd (omega (arith, h))
after_trans (negsuc a) (pos b) (pos c) h e = cc
after_trans (negsuc a) (pos b) (negsuc c) h e = refl
after_trans (negsuc a) (negsuc b) (pos c) h e = cc
after_trans (negsuc a) (negsuc b) (negsuc c) h e = ground arith

heard-alive : (t now : ℤ) (o : Option ℤ) → t ≤ℤ now → heard now (alive t o) ≡ heard now o
heard-alive t now none h = refl
heard-alive t now (some until) h = ground (arith, after_trans t now until h)

find-put :
    (key asked : String) (until : ℤ) (m : Denied)
    → find asked (put key until m) ≡ (if key == asked then some until else find asked m)
unfolding find
find-put key asked until m = ground (arith, find-delete key asked m)

-- Whether the sweep ran or not.
heard-mark_denied :
    (key asked : String) (retry_after now sweep_now t : ℤ) (m : Denied)
    → Distinct m
    → sweep_now ≤ℤ t
    → heard t (find asked (mark_denied key retry_after now sweep_now m))
      ≡ heard t (find asked (put key (now +ℤ retry_after) m))
unfolding mark_denied
heard-mark_denied key asked retry_after now sweep_now t m d h =
    let p = put key (now +ℤ retry_after) m in
    elim (Bool-cases (ltb sweep_threshold (length p))) [
      | inl e ↦ rw e (
          ap (heard t)
            (find-sweep_locked sweep_now asked p (put-Distinct key (now +ℤ retry_after) m d))
          ∙ heard-alive sweep_now t (find asked p) h)
      | inr e ↦ rw e refl
    ]

-- A request to the cache after a denial of `key` was stored is answered by that denial if it asks
-- for `key`, and as if nothing had been stored if it asks for another key: neither replacing an
-- entry nor the sweep shows, at any time from the sweep's on.
pub is_denied-mark_denied :
    (key asked : String) (retry_after now sweep_now t : ℤ) (m : Denied)
    → Distinct m
    → sweep_now ≤ℤ t
    → (is_denied asked t (mark_denied key retry_after now sweep_now m)).0 ≡ (
        if key == asked
        then (if after t (now +ℤ retry_after)
            then (false, pos 0)
            else (true, time_sub (now +ℤ retry_after) t))
        else (is_denied asked t m).0)
is_denied-mark_denied key asked retry_after now sweep_now t m d h =
    is_denied_lem asked t (mark_denied key retry_after now sweep_now m)
    ∙ heard-mark_denied key asked retry_after now sweep_now t m d h
    ∙ ap (heard t) (find-put key asked (now +ℤ retry_after) m)
    ∙ elim (Bool-cases (key == asked)) [
      | inl e ↦ rw e refl
      | inr e ↦ rw e (sym (is_denied_lem asked t m))
    ]
