-- ===== src/Limiter/Concurrency/Ledger.antt =====
-- Tier 2 over a store that keeps a ledger of the slots granted and not yet released, answers as it
-- likes, takes no slot where it answers with an error, and always releases: what `check` takes is what its decision hands to the caller.
use Prim.Native.String.{◌++◌ as ◌+++◌, count}
use text.Mathlib.TextLemmas.{length-append}
use text.Mathlib.TextPositions.{eq_refl as str_refl}
use rate_cap.Prelude.{
  ℕ, zero, suc, String, false, ◌&&◌, List, [], ◌∷◌, ◌++◌, none, if◌then◌else◌, is_some, ◌==◌,
  eq_iff, ◌≡◌, refl, ap, ◌∙◌, ◌⊎◌, inl, inr, Bool-cases, arith,
}
use rate_cap.Prelude.Int.{ℤ}
use rate_cap.Limiter.{
  TokenReservation, Request, Ending, deadline, ctx_done, Context, Checked, returned, panicked,
  BucketReply, SlotReply, Backend,
}
use rate_cap.Limiter.Concurrency.{
  ConcurrencyLimiter, backlog_key_prefix, check, first_try, at_cap, enter_backlog,
  acquire_backlog_slot, after_poll, wait_in_backlog, poll_until_allowed_or_deadline, poll_loop,
}

pub record Ledger : Type 0 where
  pub calls : ℕ
  pub held : List TokenReservation

abbrev pub remove : String → String → List TokenReservation → List TokenReservation
remove k t [] = []
remove k t (x ∷ xs) = if (x.key == k) && (x.token == t) then xs else x ∷ remove k t xs

-- The slot that a reply grants.
abbrev pub granted : String → SlotReply → List TokenReservation
granted k r =
    if is_some r.err
    then []
    else (if r.allowed then record { key = k; token = r.token } ∷ [] else [])

-- The answers to the n-th call, by its key, and its cap for a slot. An answer that carries an error
-- takes no slot here, and a release goes through.
pub record Answers : Type 0 where
  pub bucket : ℕ → String → BucketReply
  pub slot : ℕ → String → ℤ → SlotReply

abbrev pub ledger_backend : Answers → Backend
ledger_backend replies = record {
  State = Ledger;
  check_and_decrement =
      λ k rate burst cost s. (replies.bucket s.calls k, record s { calls = suc s.calls });
  incr_concurrent = λ k cap d s.
      let r = replies.slot s.calls k cap in
      (r, record { calls = suc s.calls; held = granted k r ++ s.held });
  decr_concurrent = λ k t s. (none, record { calls = suc s.calls; held = remove k t s.held });
  refund_tokens = λ k burst amount s. (none, s);
  record_fail_open = λ tier reason s. s;
}

abbrev pub reservations_of : Checked → List TokenReservation
reservations_of (returned d e) = d.reservations
reservations_of panicked = []

-- A backlog key is longer than the key that it is made from.
pub backlog_key-ne : (k : String) → (k == (backlog_key_prefix +++ k)) ≡ false
backlog_key-ne k = elim (Bool-cases (k == (backlog_key_prefix +++ k))) [
  | inl e ↦ absurd (
      omega (
        arith,
        ap count ((eq_iff k (backlog_key_prefix +++ k)).0 e),
        length-append backlog_key_prefix k,
      ))
  | inr e ↦ e
]

-- The slots of a result are one of the request's own, or none.
abbrev Single : String → List TokenReservation → Type 0
Single k xs = (xs ≡ []) ⊎ ((t : String) × (xs ≡ record { key = k; token = t } ∷ []))

module _ (replies : Answers) (l : ConcurrencyLimiter) (req : Request) where
  -- What a call did: the ledger grew by the slots of the result.
  abbrev Balanced : Ledger → Checked × Ledger → Type 0
  Balanced s p = (p.1.held ≡ reservations_of p.0 ++ s.held) × Single req.key (reservations_of p.0)

  poll_loop-Balanced :
      (n : ℕ) (e : Ending) (s : Ledger)
      → Balanced s (poll_loop (ledger_backend replies) l req n e s)
  unfolding poll_loop after_poll
  poll_loop-Balanced zero deadline s = (refl, inl refl)
  poll_loop-Balanced zero (ctx_done m) s = (refl, inl refl)
  poll_loop-Balanced (suc n) e s = ground (
    arith,
    poll_loop-Balanced n e (record {
      calls = suc s.calls;
      held = granted req.key (replies.slot s.calls req.key l.cap) ++ s.held;
    }),
  )

  -- Taking the backlog slot out again leaves the slots of the request's own.
  remove_backlog :
      (xs held : List TokenReservation) (t : String)
      → Single req.key xs
      → let k = backlog_key_prefix +++ req.key in
        remove k t (xs ++ record { key = k; token = t } ∷ held) ≡ xs ++ held
  remove_backlog xs held t (inl e) =
      rw e (ground (arith, str_refl (backlog_key_prefix +++ req.key), str_refl t))
  remove_backlog xs held t (inr (u, e)) = rw e (
      ground (arith, backlog_key-ne req.key, str_refl (backlog_key_prefix +++ req.key), str_refl t))

  poll-Balanced :
      (ctx : Context) (s : Ledger)
      → Balanced s (poll_until_allowed_or_deadline (ledger_backend replies) l ctx req s)
  unfolding poll_until_allowed_or_deadline
  poll-Balanced ctx s = ground (arith, poll_loop-Balanced ctx.polls ctx.ending s)

  wait_in_backlog-Balanced :
      (ctx : Context) (s : Ledger) (held : List TokenReservation) (t : String)
      → s.held ≡ record { key = backlog_key_prefix +++ req.key; token = t } ∷ held
      → let (r, s') = wait_in_backlog (ledger_backend replies) l ctx req t s in
        (s'.held ≡ reservations_of r ++ held) × Single req.key (reservations_of r)
  unfolding wait_in_backlog
  wait_in_backlog-Balanced ctx s held t e =
      let p = poll_until_allowed_or_deadline (ledger_backend replies) l ctx req s in
      let (balanced, single) = poll-Balanced ctx s in
      (
        ap (remove (backlog_key_prefix +++ req.key) t)
              (balanced ∙ ap (λ h. reservations_of p.0 ++ h) e)
            ∙ remove_backlog (reservations_of p.0) held t single,
        single,
      )

  -- Outside shadow mode, over a store whose releases succeed and whose failed acquires take no slot, a
  -- check of Tier 2 takes exactly the slots that its decision lists, and leaves no slot of the
  -- backlog behind, also where it ends with an error, a panic or the end of a wait.
  pub check-Balanced :
      (ctx : Context) (s : Ledger)
      → l.shadow_mode ≡ false
      → Balanced s (check (ledger_backend replies) l ctx req s)
  unfolding check first_try at_cap enter_backlog acquire_backlog_slot
  check-Balanced ctx s live =
      let r = replies.slot s.calls req.key l.cap in
      let key = backlog_key_prefix +++ req.key in
      let b = replies.slot (suc s.calls) key l.max_backlog in
      ground (
        arith,
        wait_in_backlog-Balanced ctx
            (record {
              calls = suc (suc s.calls);
              held = granted key b ++ granted req.key r ++ s.held;
            })
            s.held b.token,
      )
