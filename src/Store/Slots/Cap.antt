-- ===== src/Store/Slots/Cap.antt =====
-- How many tokens hold a slot of a key (services/core/store/lua/concurrent_limiter.lua).
use text.Mathlib.TextPositions.{eq_refl}
use rate_cap.Prelude.{
  ℕ, suc, ◌≤◌, ◌<◌, String, true, none, some, ◌≡◌, ◌↔◌, ◌∙◌, inl, inr, Option-cases, List, [], ◌∷◌,
  arith,
}
use rate_cap.Prelude.Int.{ℤ, pos, ◌+ℤ◌, ◌-ℤ◌, ltb_ℤ, leb_ℤ, ceil_div}
use rate_cap.Store.Redis.{Redis, Laws}
use rate_cap.Store.Bucket.{done}
use rate_cap.Store.Slots.{concurrent_limiter}

module _ (rds : Redis) (laws : Laws rds) where
  open rds use {Db, expire, zrem_range_by_score, zcard, zadd, zrem, zscore}

  zcard-zadd_le :
      (db : Db) (key token : String) (now : ℤ)
      → zcard (zadd db key now token) key ≤ suc (zcard db key)
  zcard-zadd_le db key token now = elim (Option-cases (zscore db key token)) [
    | inl e ↦ ground (arith, laws.zcard-zadd db key token now)
    | inr (t, e) ↦ ground (arith, laws.zcard-zadd db key token now)
  ]

  zcard-zrem_le : (db : Db) (key token : String) → zcard (zrem db key token) key ≤ zcard db key
  zcard-zrem_le db key token = elim (Option-cases (zscore db key token)) [
    | inl e ↦ ground (arith, laws.zcard-zrem db key token)
    | inr (t, e) ↦ ground (arith, laws.zcard-zrem db key token)
  ]

  -- What the clients of a key do, under a cap and a duration that stay the same.
  pub data Op : Type 0 where
    acquire : ℤ → String → Op
    release : String → Op

  unfoldable pub run_op : String → ℤ → ℤ → Op → Db → Db
  run_op key cap d (acquire now token) db = (concurrent_limiter rds db key cap d now token).1
  run_op key cap d (release token) db = zrem db key token

  unfoldable pub run_ops : String → ℤ → ℤ → List Op → Db → Db
  run_ops key cap d [] db = db
  run_ops key cap d (o ∷ os) db = run_ops key cap d os (run_op key cap d o db)

  run_op-le :
      (key : String) (cap : ℕ) (d : ℤ) (o : Op) (db : Db)
      → zcard db key ≤ cap
      → zcard (run_op key (pos cap) d o db) key ≤ cap
  unfolding run_op concurrent_limiter
  run_op-le key cap d (acquire now token) db h =
      let reaped = zrem_range_by_score db key (now -ℤ d) in
      ground (
        arith,
        laws.zcard-zrem_range_by_score db key (now -ℤ d),
        zcard-zadd_le reaped key token now,
        laws.zcard-expire (zadd reaped key now token) key (ceil_div d (pos 1000) +ℤ pos 60),
      )
  run_op-le key cap d (release token) db h = omega (arith, h, zcard-zrem_le db key token)

  -- Whatever acquires and releases of a key come, in whatever order and with whatever clocks, no
  -- more tokens hold a slot than the cap, if that was so before.
  pub run_ops-le-cap :
      (key : String) (cap : ℕ) (d : ℤ) (os : List Op) (db : Db)
      → zcard db key ≤ cap
      → zcard (run_ops key (pos cap) d os db) key ≤ cap
  unfolding run_ops
  run_ops-le-cap key cap d [] db h = h
  run_ops-le-cap key cap d (o ∷ os) db h =
      run_ops-le-cap key cap d os (run_op key (pos cap) d o db) (run_op-le key cap d o db h)

  -- An acquire is granted exactly if, with the expired slots dropped, fewer slots than the cap are
  -- held.
  pub granted_iff :
      (db : Db) (key token : String) (cap d now : ℤ)
      → ((concurrent_limiter rds db key cap d now token).0 ≡ done (pos 1, token))
        ↔ (ltb_ℤ (pos (zcard (zrem_range_by_score db key (now -ℤ d)) key)) cap ≡ true)
  unfolding concurrent_limiter
  granted_iff db key token cap d now = ground arith

  expired_out :
      (db : Db) (key m : String) (max : ℤ)
      → ((t : ℤ) → zscore db key m ≡ some t → leb_ℤ t max ≡ true)
      → zscore (zrem_range_by_score db key max) key m ≡ none
  expired_out db key m max old = elim (Option-cases (zscore db key m)) [
    | inl e ↦ laws.zscore-zrem_range_by_score db key key m max ∙ rw e
    | inr (t, e) ↦ laws.zscore-zrem_range_by_score db key key m max ∙ rw (e, eq_refl key, old t e)
  ]

  -- If every slot of the key has expired, an acquire under a positive cap is granted, however many
  -- slots were leaked before.
  pub reaped_grants :
      (db : Db) (key token : String) (cap : ℕ) (d now : ℤ)
      → 0 < cap
      → ((m : String) (t : ℤ) → zscore db key m ≡ some t → leb_ℤ t (now -ℤ d) ≡ true)
      → (concurrent_limiter rds db key (pos cap) d now token).0 ≡ done (pos 1, token)
  reaped_grants db key token cap d now h old = (granted_iff db key token (pos cap) d now).1 (
      let reaped = zrem_range_by_score db key (now -ℤ d) in
      let gone : zcard reaped key ≡ 0 =
        laws.zcard_empty reaped key (λ m. expired_out db key m (now -ℤ d) (old m)) in
      rw gone (ground arith))

  -- With a duration of 0 no cap bites: an acquire is granted whatever number of slots is held, if
  -- none of them is stamped later than now.
  pub zero_duration_grants :
      (db : Db) (key token : String) (cap : ℕ) (now : ℕ)
      → 0 < cap
      → ((m : String) (t : ℤ) → zscore db key m ≡ some t → leb_ℤ t (pos now) ≡ true)
      → (concurrent_limiter rds db key (pos cap) (pos 0) (pos now) token).0 ≡ done (pos 1, token)
  zero_duration_grants db key token cap now h old =
      reaped_grants db key token cap (pos 0) (pos now) h (λ m t e. ground (arith, old m t e))

  -- A token that is granted a slot and released again leaves the key with the slots that had not
  -- expired: as many as were counted for the grant, and fewer than the cap.
  pub release_frees :
      (db : Db) (key token : String) (cap now : ℤ) (d : ℕ)
      → zscore db key token ≡ none
      → let (r, db') = concurrent_limiter rds db key cap (pos d) now token in
        let count = zcard (zrem_range_by_score db key (now -ℤ pos d)) key in
        r ≡ done (pos 1, token)
        → (zcard db' key ≡ suc count)
          × (zcard (zrem db' key token) key ≡ count)
          × (ltb_ℤ (pos count) cap ≡ true)
  unfolding concurrent_limiter
  release_frees db key token cap now d fresh e =
      let reaped = zrem_range_by_score db key (now -ℤ pos d) in
      let added = zadd reaped key now token in
      let ttl = ceil_div (pos d) (pos 1000) +ℤ pos 60 in
      ground (
        arith,
        eq_refl key,
        eq_refl token,
        laws.zscore-zrem_range_by_score db key key token (now -ℤ pos d),
        laws.zcard-zadd reaped key token now,
        laws.zscore-zadd reaped key key token token now,
        laws.zscore-expire added key key token ttl,
        laws.zcard-expire added key ttl,
        laws.zcard-zrem (expire added key ttl) key token,
      )
