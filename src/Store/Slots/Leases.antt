-- ===== src/Store/Slots/Leases.antt =====
-- What the slots of a key promise, with no database: a list of leases, each a token and the time
-- of its grant, that end after a duration (services/core/store/lua/concurrent_limiter.lua).
use text.Mathlib.TextPositions.{eq_refl}
use rate_cap.Prelude.{
  String, Bool, Option, none, some, List, [], ◌∷◌, ◌≡◌, refl, ◌==◌, length, if◌then◌else◌, eq_iff,
  arith,
}
use rate_cap.Prelude.Int.{ℤ, pos, ◌-ℤ◌, leb_ℤ, ltb_ℤ}

abbrev pub Leases : Type 0
Leases = List (String × ℤ)

abbrev pub find : String → Leases → Option ℤ
find m [] = none
find m ((k, t) ∷ ls) = if k == m then some t else find m ls

-- No token has two leases.
abbrev pub Distinct : Leases → Type 0
Distinct [] = Unit {0}
Distinct ((k, t) ∷ ls) = (find k ls ≡ none) × Distinct ls

pub unexpired_leases : ℤ → Leases → Leases
unexpired_leases max [] = []
unexpired_leases max ((k, t) ∷ ls) =
    let rest = unexpired_leases max ls in if leb_ℤ t max then rest else (k, t) ∷ rest

pub remove : String → Leases → Leases
remove m [] = []
remove m ((k, t) ∷ ls) = let rest = remove m ls in if k == m then rest else (k, t) ∷ rest

pub put : String → ℤ → Leases → Leases
put m t ls = (m, t) ∷ remove m ls

-- The leases that have ended are dropped; a new one is granted if there are fewer than the cap.
unfoldable pub lease : ℤ → ℤ → ℤ → String → Leases → Bool × Leases
lease cap duration now token ls =
    let live = unexpired_leases (now -ℤ duration) ls in
    let fits = ltb_ℤ (pos (length live)) cap in (fits, if fits then put token now live else live)

abbrev pub if_after : ℤ → Option ℤ → Option ℤ
if_after max none = none
if_after max (some t) = if leb_ℤ t max then none else some t

find_gone :
    (m : String) (max : ℤ) (ls : Leases)
    → find m ls ≡ none
    → find m (unexpired_leases max ls) ≡ none
unfolding unexpired_leases
find_gone m max [] e = e
find_gone m max ((k, t) ∷ ls) e = ground (arith, find_gone m max ls)

pub find-unexpired_leases :
    (m : String) (max : ℤ) (ls : Leases)
    → Distinct ls
    → find m (unexpired_leases max ls) ≡ if_after max (find m ls)
unfolding unexpired_leases
find-unexpired_leases m max [] d = refl
find-unexpired_leases m max ((k, t) ∷ ls) d =
    ground (arith, eq_iff k m, find_gone k max ls d.0, find-unexpired_leases m max ls d.1)

pub unexpired_leases-Distinct :
    (max : ℤ) (ls : Leases) → Distinct ls → Distinct (unexpired_leases max ls)
unfolding unexpired_leases
unexpired_leases-Distinct max [] d = d
unexpired_leases-Distinct max ((k, t) ∷ ls) d =
    ground (arith, find_gone k max ls d.0, unexpired_leases-Distinct max ls d.1)

pub find-remove :
    (k m : String) (ls : Leases) → find m (remove k ls) ≡ (if k == m then none else find m ls)
unfolding remove
find-remove k m [] = ground arith
find-remove k m ((j, t) ∷ ls) =
    ground (arith, eq_iff j k, eq_iff k m, eq_iff j m, find-remove k m ls)

pub remove-Distinct : (k : String) (ls : Leases) → Distinct ls → Distinct (remove k ls)
unfolding remove
remove-Distinct k [] d = d
remove-Distinct k ((j, t) ∷ ls) d = ground (arith, find-remove k j ls, remove-Distinct k ls d.1)

pub find-put :
    (k m : String) (t : ℤ) (ls : Leases)
    → find m (put k t ls) ≡ (if k == m then some t else find m ls)
unfolding put
find-put k m t ls = ground (arith, find-remove k m ls)

pub put-Distinct : (k : String) (t : ℤ) (ls : Leases) → Distinct ls → Distinct (put k t ls)
unfolding put
put-Distinct k t ls d = (ground (arith, find-remove k k ls, eq_refl k), remove-Distinct k ls d)
