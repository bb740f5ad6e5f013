-- ===== src/Metrics/Calls.antt =====
-- Which calls are counted (services/core/metrics/interceptor.go, services/core/main.go).
use Prim.Native.String.{◌++◌}
use rate_cap.Prelude.{String, [], ◌∷◌, some, ◌⊎◌, inl, inr, ◌≡◌, ◌≢◌, refl, ap, sym, subst}
use rate_cap.Process.Auth.{server_answers}
use rate_cap.Metrics.{
  Counters, CallInfo, method_name, classify_transport, serve_call, refused_or,
  unary_server_interceptor, record_grpc_request, record_connection_security,
}
use rate_cap.Metrics.Methods.{NoSlash, method_name-joined}

module _ {R S : Type 0} (secret : String) (status_text : R → String) (info : CallInfo)
    (handler : S → R × S) (s : S) (m : Counters) where
  -- The call has run, and stands in both counters, in the first under its method.
  abbrev Counted : String → (R ⊎ String) × S × Counters → Type 0
  Counted method p =
      (p.0 ≡ inl (handler s).0)
      × (p.1 ≡ (handler s).1)
      × (p.2.grpc_requests_total ≡ (method, status_text (handler s).0) ∷ m.grpc_requests_total)
      × (p.2.connection_security_total ≡ classify_transport info.peer ∷ m.connection_security_total)

  -- The call has been refused, and stands in none.
  abbrev Unseen : (R ⊎ String) × S × Counters → Type 0
  Unseen p = (e : String) × (p ≡ (inr e, s, m))

  -- A call whose full name ends with a slash and a method without slashes, if it carries the secret of
  -- the core, once and with no other value, runs the handler, and is counted once by this method, its
  -- status and the security of its connection; with anything else in place of the secret it does not
  -- run the handler, and is not counted at all.
  pub serve_call_counts :
      (path method : String)
      → info.full_method ≡ path ++ ("/" ++ method)
      → NoSlash method
      → ((info.metadata ≡ some (secret ∷ []))
          × Counted method (serve_call secret status_text info handler (s, m)))
        ⊎ ((info.metadata ≢ some (secret ∷ []))
            × Unseen (serve_call secret status_text info handler (s, m)))
  unfolding serve_call refused_or unary_server_interceptor record_grpc_request
      record_connection_security
  serve_call_counts path method full no_slash =
      let answers =
        server_answers secret info.metadata
          (unary_server_interceptor status_text info handler (s, m)) in
      let name : method_name info.full_method ≡ method =
        rw full (method_name-joined path method no_slash) in
      elim answers [
        | inl (e, q) ↦ inl (
          e,
          subst (Counted method) (sym (ap (λ x. refused_or x s m) q)) (
            refl,
            refl,
            ap (λ n. (n, status_text (handler s).0) ∷ m.grpc_requests_total) name,
            refl,
          ),
        )
        | inr (e, why, q) ↦ inr (e, (why, ap (λ x. refused_or x s m) q))
      ]
