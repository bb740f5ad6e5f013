-- ===== src/Sdk/Transport.antt =====
-- The client, the sidecar and the core put together, over links that deliver what is sent: gRPC
-- between the sidecar and the core, HTTP between the client and the sidecar.
use rate_cap.Prelude.{
  ℕ, suc, ◌*◌, ◌≤◌, refl, String, Bool, true, false, Option, none, some, ◌⊎◌, inl, ◌≡◌,
  if◌then◌else◌, ◌==◌, arith,
}
use rate_cap.Prelude.Int.{ℤ}
use rate_cap.Sidecar.RateLimit.{Limiter, middleware}
use rate_cap.Sidecar.RateLimit.Laws.{middleware-allowed, allow_takes}
use native.Mathlib.Nat.{mul-le-mul_right}
use rate_cap.Limiter.{Error, Backend, Context}
use rate_cap.Server.{
  Server, Rpc, reply, check_rate_limit, release_concurrency, refund_cost, set_dynamic_limit,
}
use rate_cap.Sidecar.Http.{Core, HttpResponse}
use rate_cap.Sidecar.Proxy
use rate_cap.Sidecar.Proxy.{Handler, Surroundings, Sidecar}
use rate_cap.Sidecar.Release
use rate_cap.Sdk.Requests.{SentRequest, read_check, read_release}

-- An RPC to its caller: a status is an error, and so is the loss of the process.
abbrev pub replied : {A : Type 0} → Rpc A → Option A
replied (reply x) = some x
replied (Rpc.status code m) = none
replied Rpc.crash = none

abbrev pub accepted : Rpc (Unit {0}) → Bool
accepted (reply x) = true
accepted (Rpc.status code m) = false
accepted Rpc.crash = false

pub replied-reply : {A : Type 0} (r : Rpc A) (x : A) → replied r ≡ some x → r ≡ reply x
replied-reply (reply y) x e = ground (arith, e)
replied-reply (Rpc.status code m) x e = absurd (ground (arith, e))
replied-reply Rpc.crash x e = absurd (ground (arith, e))

-- The core, for callers with the context `ctx`.
abbrev pub core_of : Backend → Context → (String → String → String) → String → Core
core_of b ctx mac signing_key = record {
  State = Server b;
  check_rate_limit = λ req s. let (r, s') = check_rate_limit b ctx req s in (replied r, s');
  release_concurrency = λ key token s.
      let (r, s') = release_concurrency b mac signing_key key token s in (accepted r, s');
  refund_cost = λ key amount s. let (r, s') = refund_cost b key amount s in (accepted r, s');
  set_dynamic_limit =
      λ tier value s. let (r, s') = set_dynamic_limit b tier value s in (replied r, s');
}

-- The two endpoints that the client uses, behind the limiter of the sidecar.
unfoldable pub served :
    (c : Core) → Handler → Surroundings → SentRequest → Sidecar c → HttpResponse × Sidecar c
served c h env r s =
    if r.path == "/check"
    then Proxy.serve_http h env (read_check r) s
    else (let (resp, core, effects) = Release.serve_http c (read_release r) s.core s.effects in
        (resp, record s { core = core; effects = effects }))

-- The sidecar with the limiter that all its routes share, and the number of requests so far.
pub record Front (c : Core) : Type 0 where
  pub sidecar : Sidecar c
  pub limiter : Limiter
  pub requests : ℕ

-- `newTopMux`: a request goes through the limiter, which reads the clock once, and again where it
-- refuses.
unfoldable pub send :
    (c : Core)
    → Handler
    → Surroundings
    → (ℕ → ℤ × ℤ)
    → SentRequest
    → Front c
    → (HttpResponse ⊎ Error) × Front c
send c h env clock r f =
    let (now, later) = clock f.requests in
    let (resp, l, s) = middleware (served c h env r) now later f.limiter f.sidecar in
    (inl resp, record { sidecar = s; limiter = l; requests = suc f.requests })

-- The limiter has a token for each of k requests.
pub record Open {c : Core} (k : ℕ) (f : Front c) : Type 0 where
  pub has_tokens : k * f.limiter.one ≤ f.limiter.tokens
  pub within_burst : f.limiter.tokens ≤ f.limiter.burst

pub Open-less : {c : Core} (k j : ℕ) (f : Front c) → j ≤ k → Open k f → Open j f
Open-less k j f h o = record {
  has_tokens = omega (arith, o.has_tokens, mul-le-mul_right f.limiter.one h);
  within_burst = o.within_burst;
}

-- A request that the limiter has a token for is served.
pub record LetThrough {c : Core} (h : Handler) (env : Surroundings) (clock : ℕ → ℤ × ℤ)
    (r : SentRequest) (f : Front c) (k : ℕ) : Type 0 where
  pub answer : (send c h env clock r f).0 ≡ inl (served c h env r f.sidecar).0
  pub after : (send c h env clock r f).1.sidecar ≡ (served c h env r f.sidecar).1
  pub open_for : Open k (send c h env clock r f).1

pub send-LetThrough :
    {c : Core} (h : Handler) (env : Surroundings) (clock : ℕ → ℤ × ℤ) (r : SentRequest)
    (f : Front c) (k : ℕ)
    → Open (suc k) f
    → LetThrough h env clock r f k
unfolding send
send-LetThrough {c} h env clock r f k o =
    let (now, later) = clock f.requests in
    let paid = allow_takes now f.limiter k o.has_tokens o.within_burst in
    let e = middleware-allowed (served c h env r) now later f.limiter f.sidecar paid.0 in
    record {
      answer = rw e refl;
      after = rw e refl;
      open_for = rw e (record { has_tokens = paid.1; within_burst = paid.2 });
    }
