-- ===== src/Store/Slots/Refinement.antt =====
-- The sorted set of a key behaves as a list of leases
-- (services/core/store/lua/concurrent_limiter.lua).
use text.Mathlib.TextPositions.{eq_refl}
use rate_cap.Prelude.{
  ℕ, String, Bool, true, false, List, [], ◌∷◌, ◌≡◌, refl, length, Bool-cases, eq_iff, inl, inr,
  arith,
}
use rate_cap.Prelude.Int.{ℤ, pos, ◌+ℤ◌, ◌-ℤ◌, ltb_ℤ, ceil_div}
use rate_cap.Store.Redis.{Redis, Laws}
use rate_cap.Store.Bucket.{Lua, done}
use rate_cap.Store.Slots.{concurrent_limiter}
use rate_cap.Store.Slots.Cap.{Op, run_op, run_ops}
use rate_cap.Store.Slots.Leases.{
  Leases, find, Distinct, lease, put, remove, unexpired_leases, find-unexpired_leases,
  unexpired_leases-Distinct, find-remove, remove-Distinct, find-put, put-Distinct,
}

abbrev reply_of : Bool → String → Lua (ℤ × String)
reply_of true token = done (pos 1, token)
reply_of false token = done (pos 0, "")

module _ (rds : Redis) (laws : Laws rds) where
  open rds use {Db, zrem_range_by_score, zcard, zadd, zrem, zscore, expire}

  -- The members of the set, with their scores, are the leases.
  pub record Shows (key : String) (db : Db) (ls : Leases) : Type 0 where
    pub scores : (m : String) → zscore db key m ≡ find m ls
    pub distinct : Distinct ls

  Shows-zrem :
      (key m : String) (db : Db) (ls : Leases)
      → Shows key db ls
      → Shows key (zrem db key m) (remove m ls)
  Shows-zrem key m db ls h = record {
    scores = λ n.
        ground
          (arith, laws.zscore-zrem db key key m n, find-remove m n ls, eq_refl key, h.scores n);
    distinct = remove-Distinct m ls h.distinct;
  }

  Shows-tail :
      (key k : String) (t : ℤ) (db : Db) (ls : Leases)
      → Shows key db ((k, t) ∷ ls)
      → Shows key (zrem db key k) ls
  Shows-tail key k t db ls h = record {
    scores = λ n.
        ground (
          arith,
          laws.zscore-zrem db key key k n,
          eq_refl key,
          h.scores n,
          h.distinct.0,
          eq_iff k n,
        );
    distinct = h.distinct.1;
  }

  -- ZCARD counts the leases.
  zcard-Shows : (key : String) (db : Db) (ls : Leases) → Shows key db ls → zcard db key ≡ length ls
  zcard-Shows key db [] h = laws.zcard_empty db key h.scores
  zcard-Shows key db ((k, t) ∷ ls) h =
      let rest = zcard-Shows key (zrem db key k) ls (Shows-tail key k t db ls h) in
      ground (arith, rest, laws.zcard-zrem db key k, h.scores k, eq_refl k)

  Shows-reaped :
      (key : String) (max : ℤ) (db : Db) (ls : Leases)
      → Shows key db ls
      → Shows key (zrem_range_by_score db key max) (unexpired_leases max ls)
  Shows-reaped key max db ls h = record {
    scores = λ m. ground (
      arith,
      laws.zscore-zrem_range_by_score db key key m max,
      find-unexpired_leases m max ls h.distinct,
      eq_refl key,
      h.scores m,
    );
    distinct = unexpired_leases-Distinct max ls h.distinct;
  }

  Shows-added :
      (key token : String) (now : ℤ) (d : ℕ) (db : Db) (ls : Leases)
      → Shows key db ls
      → Shows key
          (expire (zadd db key now token) key (ceil_div (pos d) (pos 1000) +ℤ pos 60))
          (put token now ls)
  Shows-added key token now d db ls h = record {
    scores = λ m. ground (
      arith,
      laws.zscore-expire (zadd db key now token) key key m (ceil_div (pos d) (pos 1000) +ℤ pos 60),
      laws.zscore-zadd db key key token m now,
      find-put token m now ls,
      eq_refl key,
      h.scores m,
    );
    distinct = put-Distinct token now ls h.distinct;
  }

  Shows-concurrent_limiter :
      (key token : String) (cap now : ℤ) (d : ℕ) (db : Db) (ls : Leases)
      → Shows key db ls
      → let p = concurrent_limiter rds db key cap (pos d) now token in
        let q = lease cap (pos d) now token ls in (p.0 ≡ reply_of q.0 token) × Shows key p.1 q.1
  unfolding concurrent_limiter lease
  Shows-concurrent_limiter key token cap now d db ls h =
      let max = now -ℤ pos d in
      let reaped = Shows-reaped key max db ls h in
      let live = unexpired_leases max ls in
      let count = zcard-Shows key (zrem_range_by_score db key max) live reaped in
      rw count (elim (Bool-cases (ltb_ℤ (pos (length live)) cap)) [
        | inl e ↦
            rw e (refl, Shows-added key token now d (zrem_range_by_score db key max) live reaped)
        | inr e ↦ rw e (refl, reaped)
      ])

  -- The replies to the acquires, and the leases after the operations.
  pub replies : String → ℤ → ℤ → List (Op rds laws) → Db → List (Lua (ℤ × String))
  replies key cap d [] db = []
  replies key cap d (Op.acquire now token ∷ os) db =
      let p = concurrent_limiter rds db key cap d now token in p.0 ∷ replies key cap d os p.1
  replies key cap d (Op.release token ∷ os) db = replies key cap d os (zrem db key token)

  pub lease_replies : ℤ → ℤ → List (Op rds laws) → Leases → List (Lua (ℤ × String)) × Leases
  lease_replies cap d [] ls = ([], ls)
  lease_replies cap d (Op.acquire now token ∷ os) ls =
      let (ok, ls') = lease cap d now token ls in
      let (rs, ls'') = lease_replies cap d os ls' in (reply_of ok token ∷ rs, ls'')
  lease_replies cap d (Op.release token ∷ os) ls = lease_replies cap d os (remove token ls)

  -- The database refines the list of leases: whatever acquires and releases of a key come, in
  -- whatever order and with whatever clocks, the replies are those that the leases give, and the
  -- set shows the leases afterwards, if it did before and the duration is not negative.
  pub replies-lease_replies :
      (key : String) (cap : ℤ) (d : ℕ) (os : List (Op rds laws)) (db : Db) (ls : Leases)
      → Shows key db ls
      → (replies key cap (pos d) os db ≡ (lease_replies cap (pos d) os ls).0)
        × Shows key (run_ops rds laws key cap (pos d) os db) (lease_replies cap (pos d) os ls).1
  unfolding replies lease_replies run_ops run_op
  replies-lease_replies key cap d [] db ls h = (refl, h)
  replies-lease_replies key cap d (Op.acquire now token ∷ os) db ls h =
      let step = Shows-concurrent_limiter key token cap now d db ls h in
      let db' = (concurrent_limiter rds db key cap (pos d) now token).1 in
      let ls' = (lease cap (pos d) now token ls).1 in
      let rest = replies-lease_replies key cap d os db' ls' step.1 in
      (rw (step.0, rest.0) refl, rest.1)
  replies-lease_replies key cap d (Op.release token ∷ os) db ls h =
      replies-lease_replies key cap d os (zrem db key token) (remove token ls)
        (Shows-zrem key token db ls h)
