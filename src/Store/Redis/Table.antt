-- ===== src/Store/Redis/Table.antt =====
-- An instance of the interface of Redis in memory, which meets the laws: hashes as functions, and
-- sorted sets as lists in which an entry hides the later ones for the same member.
use text.Mathlib.TextPositions.{eq_refl}
use rate_cap.Prelude.{
  ℕ, suc, ◌≤◌, ◌≡◌, refl, ap, sym, String, Bool, false, ◌&&◌, Option, none, some, if◌then◌else◌,
  ◌==◌, eq_iff, is_some, List, [], ◌∷◌, inl, inr, Bool-cases, Option-cases, arith,
}
use rate_cap.Prelude.Int.{ℤ, pos, leb_ℤ}
use rate_cap.Store.Redis.{Redis, Laws}

abbrev pub Entries : Type 0
Entries = List (String × ℤ)

pub record Tables : Type 0 where
  pub hashes : String → String → Option ℤ
  pub sets : String → Entries
  pub timeouts : String → Option ℤ

unfoldable pub find : String → Entries → Option ℤ
find m [] = none
find m ((n, t) ∷ es) = if n == m then some t else find m es

-- The members that are not hidden.
unfoldable pub card : Entries → ℕ
unfolding find
card [] = 0
card ((n, t) ∷ es) = let rest = card es in if is_some (find n es) then rest else suc rest

-- Drops every entry of the members that `gone` holds of.
unfoldable pub drop_members : (String → Bool) → Entries → Entries
drop_members gone [] = []
drop_members gone ((n, t) ∷ es) =
    let rest = drop_members gone es in if gone n then rest else (n, t) ∷ rest

find-drop_members :
    (gone : String → Bool) (m : String) (es : Entries)
    → find m (drop_members gone es) ≡ (if gone m then none else find m es)
unfolding find drop_members
find-drop_members gone m [] = ground arith
find-drop_members gone m ((n, t) ∷ es) = elim (Bool-cases (n == m)) [
  | inl e ↦ ground (arith, find-drop_members gone m es, ap gone ((eq_iff n m).0 e))
  | inr e ↦ ground (arith, find-drop_members gone m es)
]

card-drop_members_le : (gone : String → Bool) (es : Entries) → card (drop_members gone es) ≤ card es
unfolding card drop_members
card-drop_members_le gone [] = omega arith
card-drop_members_le gone ((n, t) ∷ es) =
    ground (arith, card-drop_members_le gone es, find-drop_members gone n es)

card-remove :
    (m : String) (es : Entries)
    → elim (find m es) [
      | none ↦ card (drop_members (λ n. m == n) es)
      | some _ ↦ suc (card (drop_members (λ n. m == n) es))
    ]
      ≡ card es
unfolding find card drop_members
card-remove m [] = refl
card-remove m ((n, t) ∷ es) = elim (Bool-cases (n == m)) [
  | inl e ↦
      let same : n ≡ m = (eq_iff n m).0 e in
      elim (Option-cases (find m es)) [
        | inl f ↦
            ground (arith, card-remove m es, (eq_iff m n).1 (sym same), ap (λ x. find x es) same)
        | inr (u, f) ↦
            ground (arith, card-remove m es, (eq_iff m n).1 (sym same), ap (λ x. find x es) same)
      ]
  | inr e ↦ elim (Option-cases (find m es)) [
    | inl f ↦
        ground
          (arith, card-remove m es, find-drop_members (λ x. m == x) n es, eq_iff m n, eq_iff n m)
    | inr (u, f) ↦
        ground
          (arith, card-remove m es, find-drop_members (λ x. m == x) n es, eq_iff m n, eq_iff n m)
  ]
]

card_empty : (es : Entries) → ((m : String) → find m es ≡ none) → card es ≡ 0
unfolding find card
card_empty [] h = refl
card_empty ((n, t) ∷ es) h = absurd (ground (arith, h n, eq_refl n))

abbrev pub expired : ℤ → Option ℤ → Bool
expired max none = false
expired max (some t) = leb_ℤ t max

abbrev pub update : String → (Entries → Entries) → Tables → Tables
update k f db = record db { sets = λ j. if k == j then f (db.sets j) else db.sets j }

abbrev pub table : Redis
table = record {
  Db = Tables;
  hget = λ db k f. db.hashes k f;
  hset = λ db k f v. record db {
    hashes = λ j g. if (k == j) && (f == g) then some v else db.hashes j g;
  };
  expire = λ db k t. record {
    hashes = λ j g. if (k == j) && leb_ℤ t (pos 0) then none else db.hashes j g;
    sets = λ j. if (k == j) && leb_ℤ t (pos 0) then [] else db.sets j;
    timeouts = λ j. if k == j then some t else db.timeouts j;
  };
  ttl = λ db k. db.timeouts k;
  zrem_range_by_score =
      λ db k max. update k (λ es. drop_members (λ m. expired max (find m es)) es) db;
  zcard = λ db k. card (db.sets k);
  zadd = λ db k t m. update k (λ es. (m, t) ∷ es) db;
  zrem = λ db k m. update k (drop_members (λ n. m == n)) db;
  zscore = λ db k m. find m (db.sets k);
}

-- A database with nothing in it.
abbrev pub no_data : table.Db
no_data = record { hashes = λ k f. none; sets = λ k. []; timeouts = λ k. none }

pub table_laws : Laws table
unfolding find card drop_members
table_laws = record {
  hget-hset = λ db k f j g v. refl;
  hget-expire = λ db k j g t. refl;
  ttl-expire = λ db k t h. rw (eq_refl k) refl;
  zscore-zrem_range_by_score = λ db k j m max.
      ground (arith, find-drop_members (λ n. expired max (find n (db.sets j))) m (db.sets j));
  zscore-zadd = λ db k j m n t. ground arith;
  zscore-zrem = λ db k j m n. ground (arith, find-drop_members (λ x. m == x) n (db.sets j));
  zscore-expire = λ db k j m t. ground arith;
  zcard-zrem_range_by_score = λ db k max.
      rw (eq_refl k) (card-drop_members_le (λ n. expired max (find n (db.sets k))) (db.sets k));
  zcard-zadd = λ db k m t. rw (eq_refl k) (ground arith);
  zcard-zrem = λ db k m. elim (Option-cases (find m (db.sets k))) [
    | inl e ↦ ground (arith, eq_refl k, card-remove m (db.sets k))
    | inr (t, e) ↦ ground (arith, eq_refl k, card-remove m (db.sets k))
  ];
  zcard-expire = λ db k t. ground (arith, eq_refl k);
  zcard_empty = λ db k h. card_empty (db.sets k) h;
}
