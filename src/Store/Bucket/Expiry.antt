-- ===== src/Store/Bucket/Expiry.antt =====
-- The expiry that the script sets on a bucket (services/core/store/lua/token_bucket.lua).
use native.Mathlib.Nat.{div-add-mod', mod-lt}
use rate_cap.Prelude.{
  ℕ, zero, suc, ◌+◌, ◌-◌, ◌*◌, ◌/◌, ◌≤◌, ◌<◌, String, Option, none, some, ap, ◌≡◌, ◌∙◌, sym, subst,
  arith,
}
use rate_cap.Prelude.Int.{ℤ, pos, pos_part}
use rate_cap.Store.Redis.{Redis, Laws}
use rate_cap.Store.Bucket.{token_bucket}
use rate_cap.Store.Bucket.Natural.{
  refilled, Holds, Ran, Found, ttl-token_bucket, token_bucket-Holds, token_bucket-new,
  token_bucket-refilled,
}

mul_mono : (a b c : ℕ) → a ≤ b → a * c ≤ b * c
mul_mono a b c h = grind arith

refilled_full :
    (t u rate b now : ℕ)
    → 0 < rate
    → u + ((b + (rate - 1)) / rate + 60) * 1000 ≤ now
    → refilled t u rate b now ≡ b * 1000
refilled_full t u rate b now h k =
    let w = (b + (rate - 1)) / rate in
    let reaches : b ≤ w * rate =
      omega (arith, div-add-mod' (b + (rate - 1)) rate, mod-lt (b + (rate - 1)) h) in
    omega (arith, reaches, mul_mono ((w + 60) * 1000) (now - u) rate (omega arith))

seconds_of : Option ℤ → ℕ
seconds_of none = 0
seconds_of (some t) = pos_part t

module _ (rds : Redis) (laws : Laws rds) where
  open rds use {Db, hget, ttl}

  -- The two databases give the same reply, and the same bucket afterwards.
  abbrev Agree : Db → Db → String → ℕ → ℕ → ℕ → ℕ → Type 0
  Agree kept dropped key rate b c now =
      let p = token_bucket rds kept key (pos rate) (pos b) (pos c) (pos now) in
      let q = token_bucket rds dropped key (pos rate) (pos b) (pos c) (pos now) in
      (p.0 ≡ q.0)
      × (hget p.1 key "tokens" ≡ hget q.1 key "tokens")
      × (hget p.1 key "updated_at" ≡ hget q.1 key "updated_at")

  full-Agree :
      (kept dropped : Db) (key : String) (r b c t u now : ℕ)
      → Holds rds laws kept key t u
      → hget dropped key "tokens" ≡ none
      → refilled t u (suc r) b now ≡ b * 1000
      → Agree kept dropped key (suc r) b c now
  full-Agree kept dropped key r b c t u now holds e full =
      let p = token_bucket-refilled rds laws kept key t u r b c now holds in
      let q = token_bucket-new rds laws dropped key r b c now e in
      let p' =
        subst
          (λ x.
            Ran rds laws kept key x (suc r) c now
              (token_bucket rds kept key (pos (suc r)) (pos b) (pos c) (pos now)))
          full p in
      (
        p'.reply ∙ sym q.reply,
        p'.bucket.tokens ∙ sym q.bucket.tokens,
        p'.bucket.updated_at ∙ sym q.bucket.updated_at,
      )

  -- After a run of the script at the time u, which leaves the key with a timeout: once the timeout has
  -- passed, with no write in between, it makes no difference whether Redis has dropped the bucket.
  -- The next reply is the same, and so is the bucket after it.
  pub expiry_unobservable :
      (db dropped : Db) (key : String) (rate b c d u now timeout : ℕ)
      → 0 < rate
      → Found rds laws db key
      → let kept = (token_bucket rds db key (pos rate) (pos b) (pos d) (pos u)).1 in
        ttl kept key ≡ some (pos timeout)
        → hget dropped key "tokens" ≡ none
        → u + timeout * 1000 ≤ now
        → Agree kept dropped key rate b c now
  unfolding seconds_of
  expiry_unobservable db dropped key zero b c d u now timeout h found e m k = absurd (omega arith)
  expiry_unobservable db dropped key (suc r) b c d u now timeout h found e m k =
      let kept = (token_bucket rds db key (pos (suc r)) (pos b) (pos d) (pos u)).1 in
      let (t, holds) = token_bucket-Holds rds laws db key r b d u found in
      let same : timeout ≡ (b + (suc r - 1)) / suc r + 60 =
        ap seconds_of (sym e ∙ ttl-token_bucket rds laws db key r b d u found) in
      full-Agree kept dropped key r b c t u now holds m
        (refilled_full t u (suc r) b now h (subst (λ x. u + x * 1000 ≤ now) same k))
