-- ===== src/Sidecar/NegativeCache.antt =====
-- services/sidecar/negativecache/negativecache.go. The mutex makes each method one step; the time
-- that its clock shows, in nanoseconds, is an argument.
pub mod Laws
use rate_cap.Prelude.{
  ℕ, String, Bool, true, false, List, [], ◌∷◌, Option, none, some, if◌then◌else◌, ◌==◌, ltb, length,
  ◌-◌,
}
use rate_cap.Prelude.Int.{ℤ, pos, negsuc, ◌+ℤ◌, ◌-ℤ◌, ltb_ℤ, max_ℤ, min_ℤ, two_63}

abbrev pub sweep_threshold : ℕ
sweep_threshold = 10000

-- `map[string]time.Time`
abbrev pub Denied : Type 0
Denied = List (String × ℤ)

unfoldable pub find : String → Denied → Option ℤ
find key [] = none
find key ((k, until) ∷ m) = if k == key then some until else find key m

unfoldable pub delete : String → Denied → Denied
delete key [] = []
delete key ((k, until) ∷ m) =
    let rest = delete key m in if k == key then rest else (k, until) ∷ rest

abbrev pub put : String → ℤ → Denied → Denied
put key until m = (key, until) ∷ delete key m

-- `now.After(until)`
abbrev pub after : ℤ → ℤ → Bool
after now until = ltb_ℤ until now

-- `until.Sub(now)`, which saturates at the bounds of a Duration.
abbrev pub time_sub : ℤ → ℤ → ℤ
time_sub until now = max_ℤ (negsuc (two_63 - 1)) (min_ℤ (pos (two_63 - 1)) (until -ℤ now))

unfoldable pub sweep_locked : ℤ → Denied → Denied
sweep_locked now [] = []
sweep_locked now ((k, until) ∷ m) =
    let rest = sweep_locked now m in if after now until then rest else (k, until) ∷ rest

-- The clock is read once for the deadline and once for the sweep.
unfoldable pub mark_denied : String → ℤ → ℤ → ℤ → Denied → Denied
mark_denied key retry_after now sweep_now m =
    let denied = put key (now +ℤ retry_after) m in
    if ltb sweep_threshold (length denied) then sweep_locked sweep_now denied else denied

answer : String → ℤ → Option ℤ → Denied → (Bool × ℤ) × Denied
answer key now none m = ((false, pos 0), m)
answer key now (some until) m =
    if after now until then ((false, pos 0), delete key m) else ((true, time_sub until now), m)

unfoldable pub is_denied : String → ℤ → Denied → (Bool × ℤ) × Denied
unfolding answer
is_denied key now m = answer key now (find key m) m
