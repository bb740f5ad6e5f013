-- ===== src/Store/Bucket/ZeroRate.antt =====
-- services/core/store/lua/token_bucket.lua with a rate of 0: the time to live is not a number.
use rate_cap.Prelude.{String, Option, none, some, ◌≡◌, refl}
use rate_cap.Prelude.Int.{ℤ, pos}
use rate_cap.Limiter.{Error}
use rate_cap.Store.Redis.{Redis}
use rate_cap.Store.Bucket.{fault, token_bucket, with_bucket, write_back}

module _ (r : Redis) (db : r.Db) (key : String) (burst cost now : ℤ) where
  with_bucket-fault :
      (tokens updated_at : Option ℤ)
      → (e : Error) × ((with_bucket r db key (pos 0) burst cost now tokens updated_at).0 ≡ fault e)
  unfolding with_bucket write_back
  with_bucket-fault none updated_at = ("ERR value is not an integer or out of range", refl)
  with_bucket-fault (some tokens) none = ("attempt to perform arithmetic on a nil value", refl)
  with_bucket-fault (some tokens) (some updated_at) =
      ("ERR value is not an integer or out of range", refl)

  -- The script stops at an error, whatever the bucket holds.
  pub token_bucket-fault :
      (e : Error) × ((token_bucket r db key (pos 0) burst cost now).0 ≡ fault e)
  unfolding token_bucket
  token_bucket-fault = with_bucket-fault (r.hget db key "tokens") (r.hget db key "updated_at")
