-- ===== src/Process/Auth.antt =====
-- services/core/auth/auth.go and services/sidecar/auth/auth.go: the interceptors around each call.
-- The metadata of a call is what it holds under x-ratecap-shared-secret. `ConstantTimeCompare` is
-- equality.
use rate_cap.Prelude.{
  String, List, [], ◌∷◌, ◌++◌, Option, none, some, if◌then◌else◌, ◌==◌, ◌⊎◌, ◌↔◌, inl, inr, ◌≡◌,
  ◌≢◌, refl, ap, true, eq_iff, Bool-cases,
}

abbrev pub Metadata : Type 0
Metadata = List String

-- What the interceptor does with the only value that it accepts.
compare_secret : {A : Type 0} → String → String → A → A ⊎ String
compare_secret secret value reply =
    if value == secret then inl reply else inr "invalid shared secret"

-- `handler` is the call of the handler; `inr` is the status Unauthenticated, and the handler is not
-- called. `none` is a context without metadata.
unfoldable pub unary_server_interceptor : {A : Type 0} → String → Option Metadata → A → A ⊎ String
unfolding compare_secret
unary_server_interceptor secret none handler = inr "missing shared secret"
unary_server_interceptor secret (some []) handler = inr "missing shared secret"
unary_server_interceptor secret (some (value ∷ [])) handler = compare_secret secret value handler
unary_server_interceptor secret (some (value ∷ other ∷ rest)) handler = inr "missing shared secret"

-- `AppendToOutgoingContext` before the call
unfoldable pub unary_client_interceptor : {A : Type 0} → String → Metadata → (Metadata → A) → A
unary_client_interceptor secret md invoker = invoker (md ++ secret ∷ [])

abbrev pub IsServed : {A : Type 0} → A ⊎ String → Type 0
IsServed (inl a) = Unit
IsServed (inr e) = ⊥

compared-IsServed :
    {A : Type 0} (secret value : String) (handler : A)
    → IsServed (compare_secret secret value handler) ↔ (value ≡ secret)
unfolding compare_secret
compared-IsServed secret value handler = elim (Bool-cases (value == secret)) [
  | inl e ↦ rw e ((λ h. (eq_iff value secret).0 e), (λ h. tt))
  | inr e ↦ rw e ((λ h. absurd h), (λ h. let same = (eq_iff value secret).1 h in absurd (cc)))
]

-- The handler is called exactly if the call carries the secret under the key, once and with no other
-- value.
pub server-IsServed :
    {A : Type 0} (secret : String) (md : Option Metadata) (handler : A)
    → IsServed (unary_server_interceptor secret md handler) ↔ (md ≡ some (secret ∷ []))
unfolding unary_server_interceptor
server-IsServed secret none handler = ((λ h. absurd h), (λ e. absurd (cc)))
server-IsServed secret (some []) handler = ((λ h. absurd h), (λ e. absurd (cc)))
server-IsServed secret (some (value ∷ [])) handler =
    let compared = compared-IsServed secret value handler in
    ((λ h. rw (compared.0 h)), (λ e. compared.1 (cc)))
server-IsServed secret (some (value ∷ other ∷ rest)) handler = ((λ h. absurd h), (λ e. absurd (cc)))

-- A call that is served has the result of the handler, and any other an error.
pub server_answers :
    {A : Type 0} (secret : String) (md : Option Metadata) (handler : A)
    → ((md ≡ some (secret ∷ [])) × (unary_server_interceptor secret md handler ≡ inl handler))
      ⊎ ((md ≢ some (secret ∷ []))
          × (e : String) × (unary_server_interceptor secret md handler ≡ inr e))
unfolding unary_server_interceptor compare_secret
server_answers secret none handler = inr ((λ e. cc), "missing shared secret", refl)
server_answers secret (some []) handler = inr ((λ e. cc), "missing shared secret", refl)
server_answers secret (some (value ∷ [])) handler = elim (Bool-cases (value == secret)) [
  | inl e ↦ inl (ap (λ x. some (x ∷ [])) ((eq_iff value secret).0 e), rw e refl)
  | inr e ↦ inr (
    (λ p. let same : (value == secret) ≡ true = (eq_iff value secret).1 (cc) in cc),
    "invalid shared secret",
    rw e refl,
  )
]
server_answers secret (some (value ∷ other ∷ rest)) handler =
    inr ((λ e. cc), "missing shared secret", refl)

-- A call through the client's interceptor is served exactly if both processes have the same secret
-- and the caller has put nothing under the key itself.
pub client-IsServed :
    {A : Type 0} (secret client_secret : String) (md : Metadata) (handler : A)
    → IsServed (
        unary_client_interceptor client_secret md
          (λ sent. unary_server_interceptor secret (some sent) handler))
      ↔ ((md ≡ []) × (client_secret ≡ secret))
unfolding unary_client_interceptor unary_server_interceptor
client-IsServed secret client_secret [] handler =
    let compared = compared-IsServed secret client_secret handler in
    ((λ h. (refl, compared.0 h)), (λ e. compared.1 e.1))
client-IsServed secret client_secret (a ∷ []) handler = ((λ h. absurd h), (λ e. absurd (cc)))
client-IsServed secret client_secret (a ∷ b ∷ md) handler = ((λ h. absurd h), (λ e. absurd (cc)))
