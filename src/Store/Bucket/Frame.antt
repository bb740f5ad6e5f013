-- ===== src/Store/Bucket/Frame.antt =====
-- The scripts of Tier 1 leave the hashes of other keys alone
-- (services/core/store/lua/token_bucket.lua).
use rate_cap.Prelude.{String, false, Option, none, some, ◌==◌, ◌≡◌, refl, ◌∙◌, inl, inr, Bool-cases}
use rate_cap.Prelude.Int.{ℤ, pos, eqb_ℤ}
use rate_cap.Store.Redis.{Redis, Laws}
use rate_cap.Store.Bucket.{Verdict, token_bucket, with_bucket, write_back}

module _ (rds : Redis) (laws : Laws rds) where
  open rds use {Db, hget, hset, expire}

  hget-hset_other :
      (db : Db) (key f j g : String) (v : ℤ)
      → (key == j) ≡ false
      → hget (hset db key f v) j g ≡ hget db j g
  hget-hset_other db key f j g v h = laws.hget-hset db key f j g v ∙ rw h refl

  hget-expire_other :
      (db : Db) (key j g : String) (ttl : ℤ)
      → (key == j) ≡ false
      → hget (expire db key ttl) j g ≡ hget db j g
  hget-expire_other db key j g ttl h = laws.hget-expire db key j g ttl ∙ rw h refl

  write_back-other :
      (db : Db) (key : String) (rate burst now : ℤ) (v : Verdict) (j g : String)
      → (key == j) ≡ false
      → hget (write_back rds db key rate burst now v).1 j g ≡ hget db j g
  unfolding write_back
  write_back-other db key rate burst now v j g h =
      let written =
        hget-hset_other (hset db key "tokens" v.tokens) key "updated_at" j g now h
        ∙ hget-hset_other db key "tokens" j g v.tokens h in
      elim (Bool-cases (eqb_ℤ rate (pos 0))) [
        | inl e ↦ rw e written
        | inr e ↦ rw e (hget-expire_other _ key j g _ h ∙ written)
      ]

  with_bucket-other :
      (db : Db) (key : String) (rate burst cost now : ℤ) (tokens updated_at : Option ℤ)
      (j g : String)
      → (key == j) ≡ false
      → hget (with_bucket rds db key rate burst cost now tokens updated_at).1 j g ≡ hget db j g
  unfolding with_bucket
  with_bucket-other db key rate burst cost now none u j g h =
      write_back-other db key rate burst now _ j g h
  with_bucket-other db key rate burst cost now (some t) none j g h = refl
  with_bucket-other db key rate burst cost now (some t) (some u) j g h =
      write_back-other db key rate burst now _ j g h

  pub token_bucket-other :
      (db : Db) (key : String) (rate burst cost now : ℤ) (j g : String)
      → (key == j) ≡ false
      → hget (token_bucket rds db key rate burst cost now).1 j g ≡ hget db j g
  unfolding token_bucket
  token_bucket-other db key rate burst cost now j g h =
      with_bucket-other db key rate burst cost now _ _ j g h
