-- ===== src/Tests/SlotSets.antt =====
-- The slots of Tiers 2 and 3, on a database in memory.
use rate_cap.Prelude.{ℕ, ◌≤◌, String, true, List, [], ◌∷◌, some, ◌≡◌, refl, arith}
use rate_cap.Prelude.Int.{ℤ, pos, leb_ℤ}
use rate_cap.Store.Redis.Table.{table, no_data, table_laws, find, card}
use rate_cap.Store.Slots.Refinement.{Shows, replies, lease_replies, replies-lease_replies}
use rate_cap.Store.Slots.Cap.{Op, run_ops, run_ops-le-cap}

abbrev ops : List (Op table table_laws)
ops =
    Op.acquire (pos 10) "a"
    ∷ Op.acquire (pos 11) "b"
    ∷ Op.acquire (pos 12) "c"
    ∷ Op.release "a"
    ∷ Op.acquire (pos 13) "d"
    ∷ []

run_ops-le-cap_example :
    table.zcard (run_ops table table_laws "k" (pos 2) (pos 1000) ops no_data) "k" ≤ 2
unfolding card
run_ops-le-cap_example = run_ops-le-cap table table_laws "k" 2 (pos 1000) ops no_data (omega arith)

-- One slot, granted at 10.
abbrev one_slot : table.Db
one_slot = table.zadd no_data "k" (pos 10) "a"

no_leases : Shows table table_laws "k" no_data []
unfolding find
no_leases = record { scores = λ m. refl; distinct = tt }

replies-lease_replies_example :
    (replies table table_laws "k" (pos 2) (pos 1000) ops no_data
      ≡ (lease_replies table table_laws (pos 2) (pos 1000) ops []).0)
    × Shows table table_laws "k"
        (run_ops table table_laws "k" (pos 2) (pos 1000) ops no_data)
        (lease_replies table table_laws (pos 2) (pos 1000) ops []).1
replies-lease_replies_example =
    replies-lease_replies table table_laws "k" (pos 2) 1000 ops no_data [] no_leases

slots_of_one :
    (max : ℕ)
    → 10 ≤ max
    → (m : String) (t : ℤ) → table.zscore one_slot "k" m ≡ some t
    → leb_ℤ t (pos max) ≡ true
unfolding find
slots_of_one max h m t e = ground arith
