-- ===== src/Store/Bucket/Windows.antt =====
-- What a bucket grants, told without the bucket: by the requests granted before
-- (services/core/store/lua/token_bucket.lua).
use rate_cap.Prelude.{
  ℕ, zero, suc, ◌+◌, ◌*◌, ◌≤◌, ◌<◌, String, Bool, false, List, [], ◌∷◌, none, ◌≡◌, ◌∙◌, refl, ap,
  subst, leb, if◌then◌else◌, arith,
}
use rate_cap.Prelude.Int.{ℤ, pos, eqb_ℤ}
use rate_cap.Store.Redis.{Redis, Laws}
use rate_cap.Store.Bucket.{Lua, done, fault, token_bucket}
use rate_cap.Store.Bucket.Budget.{Ordered}
use rate_cap.Store.Bucket.History.{by_windows, Means, Means-fits, Means-step, Means-new}
use rate_cap.Store.Bucket.Natural.{
  refilled, left, Holds, Ran, token_bucket-new, token_bucket-refilled,
}

abbrev pub is_granted : Lua (ℤ × ℤ × ℤ) → Bool
is_granted (done (a, t, n)) = eqb_ℤ a (pos 1)
is_granted (fault e) = false

module _ (rds : Redis) (laws : Laws rds) where
  open rds use {Db, hget}

  -- The answers of the script, run for one request after the other.
  pub granted_flags : Db → String → ℕ → ℕ → List (ℕ × ℕ) → List Bool
  granted_flags db key r b [] = []
  granted_flags db key r b ((now, c) ∷ h) =
      let p = token_bucket rds db key (pos r) (pos b) (pos c) (pos now) in
      is_granted p.0 ∷ granted_flags p.1 key r b h

  is_granted-Ran :
      (db : Db) (key : String) (t r c now : ℕ) (p : Lua (ℤ × ℤ × ℤ) × Db)
      → Ran rds laws db key t r c now p
      → is_granted p.0 ≡ leb (c * 1000) t
  is_granted-Ran db key t r c now p ran = rw (ran.reply) (ground arith)

  left-granted : (t c : ℕ) → left t c + (if leb (c * 1000) t then c * 1000 else 0) ≡ t
  left-granted t c = ground arith

  -- One request, from a bucket that means the history `past`.
  abbrev answered : ℕ → ℕ → List (ℕ × ℕ) → ℕ → ℕ → List (ℕ × ℕ) → Bool → List Bool
  answered r b past now c h granted =
      granted ∷ by_windows r b ((now, if granted then c * 1000 else 0) ∷ past) h

  granted_flags-Ran :
      (db : Db) (key : String) (t u r b now c : ℕ) (past h : List (ℕ × ℕ))
      (p : Lua (ℤ × ℤ × ℤ) × Db)
      → Means r b t u past
      → u ≤ now
      → Ran rds laws db key (refilled t u r b now) r c now p
      → ((past' : List (ℕ × ℕ))
          → Means r b (left (refilled t u r b now) c) now past'
          → granted_flags p.1 key r b h ≡ by_windows r b past' h)
      → is_granted p.0 ∷ granted_flags p.1 key r b h ≡ by_windows r b past ((now, c) ∷ h)
  unfolding by_windows
  granted_flags-Ran db key t u r b now c past h p m le ran ih =
      let full = refilled t u r b now in
      let ok = leb (c * 1000) full in
      let means =
        Means-step r b t u now (if ok then c * 1000 else 0) (left full c) past m le
          (left-granted full c) in
      ap (λ x. x ∷ granted_flags p.1 key r b h) (is_granted-Ran db key full r c now p ran)
      ∙ ap (λ xs. ok ∷ xs) (ih ((now, if ok then c * 1000 else 0) ∷ past) means)
      ∙ ap (answered r b past now c h) (Means-fits r b t u now (c * 1000) past m le)

  granted_flags-Holds :
      (db : Db) (key : String) (t u r b : ℕ) (past h : List (ℕ × ℕ))
      → Means (suc r) b t u past
      → Holds rds laws db key t u
      → Ordered u h
      → granted_flags db key (suc r) b h ≡ by_windows (suc r) b past h
  unfolding granted_flags
  granted_flags-Holds db key t u r b past [] m holds o = unfold by_windows in refl
  granted_flags-Holds db key t u r b past ((now, c) ∷ h) m holds o =
      let ran = token_bucket-refilled rds laws db key t u r b c now holds in
      let p = token_bucket rds db key (pos (suc r)) (pos b) (pos c) (pos now) in
      granted_flags-Ran db key t u (suc r) b now c past h p m o.0 ran (λ past' m'.
        granted_flags-Holds p.1 key (left (refilled t u (suc r) b now) c) now r b past' h m'
          ran.bucket o.1)

  -- In exact numbers, a fresh bucket answers as the limiter that keeps the history: a request is granted exactly if
  -- its cost is within the burst and, for every earlier request, what was granted from that one on
  -- and the cost stay within the burst and what the rate gives for the time since, as long as the
  -- clock does not run backwards.
  pub granted_flags-by_windows :
      (db : Db) (key : String) (rate b first c : ℕ) (h : List (ℕ × ℕ))
      → 0 < rate
      → hget db key "tokens" ≡ none
      → Ordered first h
      → granted_flags db key rate b ((first, c) ∷ h) ≡ by_windows rate b [] ((first, c) ∷ h)
  unfolding granted_flags
  granted_flags-by_windows db key zero b first c h pos_rate e o = absurd (omega arith)
  granted_flags-by_windows db key (suc r) b first c h pos_rate e o =
      let full : b * 1000 ≡ refilled (b * 1000) first (suc r) b first = omega arith in
      let p = token_bucket rds db key (pos (suc r)) (pos b) (pos c) (pos first) in
      let ran =
        subst (λ t. Ran rds laws db key t (suc r) c first p) full
          (token_bucket-new rds laws db key r b c first e) in
      granted_flags-Ran db key (b * 1000) first (suc r) b first c [] h p (Means-new (suc r) b first)
        (omega arith) ran
        (λ past' m'.
          granted_flags-Holds p.1 key (left (refilled (b * 1000) first (suc r) b first) c) first r b
            past' h m' ran.bucket o)

  -- The times in milliseconds of requests that come whole seconds after `start`.
  abbrev pub at_seconds : ℕ → List (ℕ × ℕ) → List (ℕ × ℕ)
  at_seconds start [] = []
  at_seconds start ((k, c) ∷ h) = (start + k * 1000, c) ∷ at_seconds start h

  at_seconds-Ordered :
      (start k : ℕ) (h : List (ℕ × ℕ))
      → Ordered k h
      → Ordered (start + k * 1000) (at_seconds start h)
  at_seconds-Ordered start k [] o = tt
  at_seconds-Ordered start k ((j, c) ∷ h) o = (omega (arith, o.0), at_seconds-Ordered start j h o.1)

  -- If requests come whole seconds apart, so that all numbers of the script are whole ones, and the
  -- clock does not run backwards, a fresh bucket with a positive rate answers as the limiter that
  -- keeps the history of grants in place of a bucket: it grants a request exactly if the cost is
  -- within the burst and, for every earlier request, what was granted from that one on and the cost
  -- stay within the burst and what the rate gives for the time since.
  pub granted_flags-by_seconds :
      (db : Db) (key : String) (rate b start c : ℕ) (h : List (ℕ × ℕ))
      → 0 < rate
      → hget db key "tokens" ≡ none
      → Ordered 0 h
      → let requests = at_seconds start ((0, c) ∷ h) in
        granted_flags db key rate b requests ≡ by_windows rate b [] requests
  granted_flags-by_seconds db key rate b start c h pos_rate e o =
      granted_flags-by_windows db key rate b (start + 0 * 1000) c (at_seconds start h) pos_rate e
        (at_seconds-Ordered start 0 h o)
