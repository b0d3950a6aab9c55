-- ===== src/Middleware/Chain/Stack/Laws.antt =====
-- The stack as a composition, and what its audit log says of a request that was denied.
use k8s_pod_manager_graphql.Prelude.{
  ℕ, ◌≡◌, refl, ap, ◌⊎◌, inl, inr, String, Bool, true, false, Option, none, some, List, ◌∷◌, map,
  All, Bool-cases,
}
use k8s_pod_manager_graphql.Prelude.Int.{ℤ}
use k8s_pod_manager_graphql.Middleware.RateLimiter.{RateLimitResult}
use k8s_pod_manager_graphql.Middleware.RateLimit.{RateLimiter, limit_calls, denial_calls}
use k8s_pod_manager_graphql.Middleware.RateLimit.Laws.{status_of, lets_pass}
use k8s_pod_manager_graphql.Middleware.Chain.{Middleware, execute_chain}
use k8s_pod_manager_graphql.Middleware.Chain.Laws.{
  run_around, composed, IsOnce, RunsAtMostOnce, execute_chain-composed, composed-RunsAtMostOnce,
}
use k8s_pod_manager_graphql.Middleware.Chain.Stack.{
  Http, AuditEntry, is_skipped, request_id_middleware, recovery_middleware, handled_error,
  error_middleware, audit_entry, logged, logging_middleware, limited, rate_limit_middleware,
  middleware_stack,
}

-- The status codes of the audit log, the latest first
abbrev pub audited_codes : {L : Type 0} → Http L → List ℕ
audited_codes s = map (λ (entry : AuditEntry). entry.status_code) s.audit

module _ {L : Type 0} (E : Type 0) where
  request_id_middleware-IsOnce :
      (header generated : String) (s : Http L)
      → IsOnce {E = E} (request_id_middleware header generated s)
  unfolding request_id_middleware
  request_id_middleware-IsOnce header generated s = λ e s'. ((e, s'), refl)

  recovery_middleware-IsOnce : (s : Http L) → IsOnce {E = E} (recovery_middleware s)
  unfolding recovery_middleware
  recovery_middleware-IsOnce s = λ e s'. ((e, s'), refl)

module _ {L E : Type 0} where
  error_middleware-IsOnce :
      (handle : E → Http L → Option E × Http L) (s : Http L) → IsOnce (error_middleware handle s)
  unfolding error_middleware handled_error
  error_middleware-IsOnce handle s none s' = ((none, s'), refl)
  error_middleware-IsOnce handle s (some e) s' = (handle e s', refl)

  logging_middleware-IsOnce :
      (text : E → String) (on : Bool) (skip_paths : List String) (s : Http L)
      → IsOnce (logging_middleware text on skip_paths s)
  unfolding logging_middleware logged
  logging_middleware-IsOnce text on skip_paths s =
      elim (Bool-cases (is_skipped skip_paths s.request.path)) [
        | inl h ↦ rw h (λ e s'. ((e, s'), refl))
        | inr h ↦ rw h (λ e s'. (_, refl))
      ]

  -- The error, the status of the response and the codes of the audit log after a denied request
  abbrev pub IsDenied : List ℕ → Option E × Http L → Type 0
  IsDenied codes (e, s) = (e ≡ none) × (status_of s.calls ≡ some 429) × (audited_codes s ≡ codes)

  logging_middleware-IsDenied :
      (text : E → String) (skip_paths : List String) (codes : List ℕ) (s : Http L)
      (inner : Http L → Option E × Http L)
      → is_skipped skip_paths s.request.path ≡ false
      → IsDenied codes (inner s)
      → IsDenied (200 ∷ codes) (run_around (logging_middleware text true skip_paths s) inner)
  unfolding logging_middleware logged audit_entry
  logging_middleware-IsDenied text skip_paths codes s inner shown (no_error, status, same) =
      rw (shown, run_around) (no_error, status, rw (no_error, audit_entry) (ap (200 ∷◌) same))

  error_middleware-IsDenied :
      (handle : E → Http L → Option E × Http L) (codes : List ℕ) (s : Http L)
      (inner : Http L → Option E × Http L)
      → IsDenied codes (inner s)
      → IsDenied codes (run_around (error_middleware handle s) inner)
  unfolding error_middleware handled_error
  error_middleware-IsDenied handle codes s inner (no_error, status, same) =
      rw (no_error, run_around, handled_error) (refl, status, same)

  module _ (limiter : RateLimiter L E) (seconds : ℤ → String) where
    limited-IsOnce :
        (answer : E ⊎ RateLimitResult) (s : Http L) → IsOnce (limited limiter seconds answer s)
    unfolding limited
    limited-IsOnce (inl e) s = λ e' s'. ((e', s'), refl)
    limited-IsOnce (inr result) s = elim (Bool-cases result.allowed) [
      | inl h ↦ rw h (λ e s'. ((e, s'), refl))
      | inr h ↦ rw h tt
    ]

    rate_limit_middleware-IsOnce :
        (skip_paths : List String) (s : Http L)
        → IsOnce (rate_limit_middleware limiter seconds skip_paths s)
    unfolding rate_limit_middleware
    rate_limit_middleware-IsOnce skip_paths s =
        elim (Bool-cases (is_skipped skip_paths s.request.path)) [
          | inl h ↦ rw h (λ e s'. ((e, s'), refl))
          | inr h ↦ rw h (
              limited-IsOnce (limiter.allow s.request.ip s.limiter).0
                (record s { limiter = (limiter.allow s.request.ip s.limiter).1 }))
        ]

    limited-IsDenied :
        (answer : E ⊎ RateLimitResult) (s : Http L) (inner : Http L → Option E × Http L)
        → lets_pass answer ≡ false
        → IsDenied (audited_codes s) (run_around (limited limiter seconds answer s) inner)
    unfolding limited limit_calls denial_calls
    limited-IsDenied (inl e) s inner denied = absurd cc
    limited-IsDenied (inr result) s inner denied = rw denied (refl, refl, refl)

    rate_limit_middleware-IsDenied :
        (skip_paths : List String) (s : Http L) (inner : Http L → Option E × Http L)
        → is_skipped skip_paths s.request.path ≡ false
        → lets_pass (limiter.allow s.request.ip s.limiter).0 ≡ false
        → IsDenied
            (audited_codes s)
            (run_around (rate_limit_middleware limiter seconds skip_paths s) inner)
    unfolding rate_limit_middleware
    rate_limit_middleware-IsDenied skip_paths s inner shown denied =
        rw (shown, run_around)
          (limited-IsDenied (limiter.allow s.request.ip s.limiter).0
            (record s { limiter = (limiter.allow s.request.ip s.limiter).1 }) inner denied)

    module _ (text : E → String) (handle : E → Http L → Option E × Http L) (generated : String)
        (base : Http L → Option E × Http L) (skip_paths : List String) where
      abbrev pub stack : List (Middleware (Http L) E)
      stack = middleware_stack limiter seconds text handle generated skip_paths

      stack-IsOnce : All (λ m. (s : Http L) → IsOnce (m s)) stack
      unfolding middleware_stack
      stack-IsOnce = (
        request_id_middleware-IsOnce E "X-Request-ID" generated,
        (
          recovery_middleware-IsOnce E,
          (
            error_middleware-IsOnce handle,
            (
              logging_middleware-IsOnce text true skip_paths,
              (rate_limit_middleware-IsOnce skip_paths, tt),
            ),
          ),
        ),
      )

      -- A stack is the composition of its five middlewares: each runs around those after it. The handlers
      -- run at most once: in a state and with what follows that do not depend on them, or not at all.
      pub middleware_stack-composed :
          (s : Http L)
          → (execute_chain base stack s ≡ some (composed base stack s))
            × RunsAtMostOnce (λ handlers. composed handlers stack s)
      middleware_stack-composed s = (
        execute_chain-composed base stack s stack-IsOnce,
        composed-RunsAtMostOnce stack s stack-IsOnce,
      )

      -- A request whose path is not skipped and that the limiter denies is answered 429, no handler
      -- runs, and the audit log gets exactly one entry for it, which says 200.
      pub middleware_stack-IsDenied :
          (s : Http L)
          → is_skipped skip_paths s.request.path ≡ false
          → lets_pass (limiter.allow s.request.ip s.limiter).0 ≡ false
          → (r : Option E × Http L) × (execute_chain base stack s ≡ some r)
            × IsDenied (200 ∷ audited_codes s) r
      unfolding middleware_stack request_id_middleware recovery_middleware
      middleware_stack-IsDenied s shown denied = (
        composed base stack s,
        (middleware_stack-composed s).0,
        error_middleware-IsDenied handle (200 ∷ audited_codes s) _ _ (
            logging_middleware-IsDenied text skip_paths (audited_codes s) _ _ shown
              (rate_limit_middleware-IsDenied skip_paths _ base shown denied)),
      )
