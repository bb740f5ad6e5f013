-- ===== src/Sdk/Returns.antt =====
-- A slot from the check that takes it to the release that gives it back: packages/sdks/go/client.go,
-- services/sidecar/proxy/proxy.go and services/core/grpcserver/server.go, one after the other.
use mathlib.Core.List.{Perm}
use mathlib.Core.List.Perm
use rate_cap.Prelude.{
  ℕ, suc, ◌+◌, String, false, true, List, [], ◌∷◌, ◌++◌, some, inl, ◌≡◌, ◌==◌, ◌≤◌, ◌∙◌, refl, ap,
  sym, subst, All, All-mono, length, arith,
}
use rate_cap.Prelude.Int.{ℤ}
use rate_cap.Limiter.{Context, TokenReservation}
use rate_cap.Limiter.Concurrency.Ledger.{Answers, ledger_backend, remove}
use rate_cap.Limiter.Concurrency.Returns.{remove-Perm}
use rate_cap.Proto.{ProtoAction, CheckRateLimitResponse}
use rate_cap.Store.Token.{verify_token}
use rate_cap.Store.Token.Signing.{verify_token-ne-empty}
use rate_cap.Server.{Server, check_rate_limit, release_concurrency}
use rate_cap.Server.Accounts.{check_rate_limit-accounted}
use rate_cap.Sidecar.Http.{release_result, Core, HttpResponse, coerce_if_shadow_overridden}
use rate_cap.Sidecar.Proxy
use rate_cap.Sidecar.Proxy.{Handler, Surroundings, Sidecar, request, forward, write_action}
use rate_cap.Sidecar.Proxy.Laws.{forward-core}
use rate_cap.Sidecar.Proxy.Delivery.{forward-replied, serve_http-delivers}
use rate_cap.Sidecar.Release
use rate_cap.Sdk.{Ticket, release, release_one, acquire, ticket_of, read_reservations}
use rate_cap.Sdk.Reservations.{
  HasToken, ticket_of-reservations, read_reservations-write_action, read_reservations-headers,
}
use rate_cap.Sdk.Rounds.{read_reservations-ends}
use rate_cap.Sdk.Requests.{
  CheckOption, acquire_request, release_request, read_check, read_release, set_value, get_value,
}
use rate_cap.Sdk.Client.{call_acquire, call_release}
use rate_cap.Sdk.Transport.{
  core_of, replied-reply, send, served, Front, Open, Open-less, send-LetThrough,
}

-- What the client reads of a reply.
abbrev pub listed : HttpResponse → List TokenReservation
listed resp = read_reservations (suc (length resp.headers)) 0 resp.headers

listed-write_action :
    (a : ProtoAction) (resp : CheckRateLimitResponse)
    → All HasToken resp.reservations
    → listed (write_action a resp) ≡ resp.reservations
listed-write_action a resp t =
    let hs = (write_action a resp).headers in
    sym (read_reservations-ends hs (length resp.reservations)).1
    ∙ read_reservations-write_action a resp (suc (length hs) + length resp.reservations)
        (omega arith) t

module _ (replies : Answers) (ctx : Context) (mac : String → String → String) (signing_key : String)
    (h : Handler) (env : Surroundings) (clock : ℕ → ℤ × ℤ) where
  abbrev core : Core
  core = core_of (ledger_backend replies) ctx mac signing_key

  -- A slot that the client can name and whose token the core accepts.
  abbrev pub Returnable : TokenReservation → Type 0
  Returnable r = ((r.key == "") ≡ false) × (verify_token mac r.token signing_key ≡ true)

  Returnable-HasToken : (r : TokenReservation) → Returnable r → HasToken r
  Returnable-HasToken r e = verify_token-ne-empty mac r.token signing_key e.1

  abbrev pub held : Sidecar core → List TokenReservation
  held s = s.core.store.held

  -- The reply and the core after it: what is held is what the reply lists, and what was held.
  -- The reply lists no more than n slots.
  pub record Owed (n : ℕ) (base : List TokenReservation) (resp : HttpResponse)
      (s : Server (ledger_backend replies)) : Type 0 where
    pub holds : Perm s.store.held (listed resp ++ base)
    pub can_return : All Returnable (listed resp)
    pub few : length (listed resp) ≤ n

  forward-Owed :
      (r : Proxy.CheckRequest) (s : Sidecar core) (resp : CheckRateLimitResponse)
      → s.core.tiers.concurrency_limiter.shadow_mode ≡ false
      → s.core.tiers.fleet_shedder.shadow_mode ≡ false
      → (core.check_rate_limit (request h r) s.core).0 ≡ some resp
      → All Returnable resp.reservations
      → Owed (length resp.reservations) (held s) (forward h env r s).0 (forward h env r s).1.core
  forward-Owed r s resp live2 live3 e ok =
      let p = check_rate_limit-accounted replies ctx (request h r) s.core resp live2 live3 (
        replied-reply (check_rate_limit (ledger_backend replies) ctx (request h r) s.core).0 resp
          e) in
      let same : listed (forward h env r s).0 ≡ resp.reservations =
        ap listed (forward-replied core h env r s resp e)
        ∙ listed-write_action (coerce_if_shadow_overridden resp.action env.shadow_override) resp
            (All-mono resp.reservations Returnable-HasToken ok) in
      record {
        holds =
            subst (λ rs. Perm (forward h env r s).1.core.store.held (rs ++ held s)) (sym same)
              (subst (λ k. Perm k.store.held (resp.reservations ++ held s))
                (sym (forward-core core h env r s)) p);
        can_return = subst (All Returnable) (sym same) ok;
        few = rw same (omega arith);
      }

  -- The core that a request finds, and its answer.
  pub record Replies (r : Proxy.CheckRequest) (resp : CheckRateLimitResponse)
      (k : Server (ledger_backend replies)) : Type 0 where
    pub live2 : k.tiers.concurrency_limiter.shadow_mode ≡ false
    pub live3 : k.tiers.fleet_shedder.shadow_mode ≡ false
    pub replied : (core.check_rate_limit (request h r) k).0 ≡ some resp
    pub ok : All Returnable resp.reservations

  pub serve_http-Owed :
      (r : Proxy.CheckRequest) (resp : CheckRateLimitResponse) (s : Sidecar core)
      → Replies r resp s.core
      → Owed
          (length resp.reservations)
          (held s)
          (Proxy.serve_http h env r s).0
          (Proxy.serve_http h env r s).1.core
  unfolding Proxy.reservation_headers
  serve_http-Owed r resp s x =
      let n = length resp.reservations in
      serve_http-delivers core h env r s.core (Owed n (held s))
        (λ s' e.
          let y = subst (Replies r resp) (sym e) x in
          subst (λ k. Owed n k.store.held (forward h env r s').0 (forward h env r s').1.core) e
            (forward-Owed r s' resp y.live2 y.live3 y.replied y.ok))
        (λ reply o.
          let none_listed : listed reply ≡ [] =
            read_reservations-headers [] (suc (length reply.headers)) 0 reply.headers (omega arith)
              tt o in
          record {
            holds = rw none_listed (Perm.refl (held s));
            can_return = rw none_listed tt;
            few = rw none_listed (omega arith);
          })
        s refl

  -- The sidecar and the core after a release.
  abbrev without : TokenReservation → Sidecar core → Sidecar core
  without r s = record s {
    core = record s.core {
      store = record { calls = suc s.core.store.calls; held = remove r.key r.token (held s) };
    };
    effects = release_result "success" ∷ s.effects;
  }

  served-release_request :
      (r : TokenReservation) (s : Sidecar core)
      → Returnable r
      → served core h env (release_request r) s ≡ (Release.ok, without r s)
  unfolding served release_request set_value get_value read_release Release.serve_http
      release_concurrency
  served-release_request r s e = ground (arith, e.0, e.1)

  pub call_release-Perm :
      (rs base : List TokenReservation) (f : Front core)
      → Open (length rs) f
      → Perm (held f.sidecar) (rs ++ base)
      → All Returnable rs
      → ((call_release (send core h env clock) rs f).0 ≡ [])
        × Perm (held (call_release (send core h env clock) rs f).1.sidecar) base
  unfolding call_release release release_one
  call_release-Perm [] base f o p ok = (refl, p)
  call_release-Perm (r ∷ rs) base f o p ok =
      let through = send-LetThrough h env clock (release_request r) f (length rs) o in
      let served_ok = served-release_request r f.sidecar ok.0 in
      let f' = (send core h env clock (release_request r) f).1 in
      let after : f'.sidecar ≡ without r f.sidecar = through.after ∙ ap (λ x. x.1) served_ok in
      let answer = through.answer ∙ ap (λ x. inl x.0) served_ok in
      rw answer (
        call_release-Perm rs base f' through.open_for
          (subst (λ s. Perm (held s) (rs ++ base)) (sym after)
            (remove-Perm r (held f.sidecar) (rs ++ base) p))
          ok.1)

  -- What an Acquire leaves.
  pub record Acquired (key : String) (opts : List CheckOption) (f : Front core) : Type 0 where
    pub ticket : Ticket
    pub got : (call_acquire (send core h env clock) key opts f).0 ≡ inl ticket
    pub holds :
        Perm
          (held (call_acquire (send core h env clock) key opts f).1.sidecar)
          (ticket.reservations ++ held f.sidecar)
    pub can_return : All Returnable ticket.reservations
    pub open_for :
        Open (length ticket.reservations) (call_acquire (send core h env clock) key opts f).1

  pub call_acquire-Acquired :
      (key : String) (opts : List CheckOption) (f : Front core) (resp : CheckRateLimitResponse)
      → Open (suc (length resp.reservations)) f
      → Replies (read_check (acquire_request key opts)) resp f.sidecar.core
      → Acquired key opts f
  unfolding call_acquire served acquire_request acquire
  call_acquire-Acquired key opts f resp o x =
      let sent = acquire_request key opts in
      let r = read_check sent in
      let (reply, s') = Proxy.serve_http h env r f.sidecar in
      let t = ticket_of key (listed reply) reply in
      let owed = serve_http-Owed r resp f.sidecar x in
      let same : t.reservations ≡ listed reply = ticket_of-reservations key (listed reply) reply in
      let through = send-LetThrough h env clock sent f (length resp.reservations) o in
      record {
        ticket = t;
        got = rw (through.answer) refl;
        holds =
            rw (through.after)
              (subst (λ rs. Perm (held s') (rs ++ held f.sidecar)) (sym same) owed.holds);
        can_return = subst (All Returnable) (sym same) owed.can_return;
        open_for =
            Open-less (length resp.reservations) (length t.reservations) _ (rw same owed.few)
              through.open_for;
      }

  -- The client gives back what it took: with Tiers 2 and 3 outside shadow mode, over a store whose
  -- releases succeed and whose failed acquires take no slot, an Acquire and the Release of its
  -- ticket, through the sidecar and the core, report no error and leave the slots held as they were,
  -- up to their order, whatever Tier 1 answers and whether the sidecar asks the core or not, if the
  -- limiter of the sidecar has a token for the check and one for each slot that the core lists in
  -- its reply, had it been asked, and each of these has a key that is not empty and a token that the
  -- core accepts.
  pub call_release-call_acquire :
      (key : String) (opts : List CheckOption) (f : Front core) (resp : CheckRateLimitResponse)
      → f.sidecar.core.tiers.concurrency_limiter.shadow_mode ≡ false
      → f.sidecar.core.tiers.fleet_shedder.shadow_mode ≡ false
      → (core.check_rate_limit (request h (read_check (acquire_request key opts))) f.sidecar.core).0
        ≡ some resp
      → All Returnable resp.reservations
      → Open (suc (length resp.reservations)) f
      → let (t, f') = call_acquire (send core h env clock) key opts f in
        (ticket : Ticket) × (t ≡ inl ticket)
        × (let (errors, f'') = call_release (send core h env clock) ticket.reservations f' in
            (errors ≡ []) × Perm (held f''.sidecar) (held f.sidecar))
  call_release-call_acquire key opts f resp live2 live3 e ok o =
      let a =
        call_acquire-Acquired key opts f resp o
          (record { live2 = live2; live3 = live3; replied = e; ok = ok }) in
      (
        a.ticket,
        a.got,
        call_release-Perm a.ticket.reservations (held f.sidecar)
            (call_acquire (send core h env clock) key opts f).1 a.open_for a.holds a.can_return,
      )
