-- ===== src/Middleware/RateLimit/Laws.antt =====
-- Which requests reach the rest of the chain.
use k8s_pod_manager_graphql.Prelude.{
  ℕ, ◌≡◌, refl, ◌⊎◌, inl, inr, String, Bool, true, false, ◌||◌, Option, none, some, List, [], ◌∷◌,
  ◌==◌, any, Bool-cases,
}
use k8s_pod_manager_graphql.Prelude.Int.{ℤ}
use k8s_pod_manager_graphql.Middleware.RateLimiter.{RateLimitResult}
use k8s_pod_manager_graphql.Middleware.RateLimit.{
  RateLimiter, ResponseCall, set_header, set_status, json_error, Exchange, pass_on, limit_calls,
  denial_calls, answered, handle,
}

-- The status that the calls set, the latest first; none if they set none.
abbrev pub status_of : List ResponseCall → Option ℕ
status_of [] = none
status_of (set_status n ∷ calls) = some n
status_of (set_header name value ∷ calls) = status_of calls
status_of (json_error text retry_after limit ∷ calls) = status_of calls

-- The limiter lets a request pass if it fails, too.
abbrev pub lets_pass : {E : Type 0} → E ⊎ RateLimitResult → Bool
lets_pass (inl e) = true
lets_pass (inr result) = result.allowed

module _ {L W E : Type 0} (limiter : RateLimiter L E) (skip_paths : List String)
    (seconds : ℤ → String) (next : W → Option E × W) where
  abbrev pub handled : (path key : String) → L → W → Option E × Exchange L W
  handled path key l w =
      handle limiter skip_paths seconds next path key
        (record { limiter = l; world = w; calls = [] })

  abbrev pub skips : String → Bool
  skips path = any (λ skipped. path == skipped) skip_paths

  -- What a client and the rest of the chain see of a request that passes, or that does not
  abbrev pub IsHandled : Bool → W → Option E × Exchange L W → Type 0
  IsHandled true w (e, x) = (e ≡ (next w).0) × (x.world ≡ (next w).1) × (status_of x.calls ≡ none)
  IsHandled false w (e, x) = (e ≡ none) × (x.world ≡ w) × (status_of x.calls ≡ some 429)

  answered-IsHandled :
      (answer : E ⊎ RateLimitResult) (l : L) (w : W)
      → IsHandled (lets_pass answer) w (
          answered limiter skip_paths seconds next answer
            (record { limiter = l; world = w; calls = [] }))
  unfolding answered pass_on limit_calls denial_calls
  answered-IsHandled (inl e) l w = (refl, refl, refl)
  answered-IsHandled (inr result) l w = elim (Bool-cases result.allowed) [
    | inl h ↦ rw h (refl, refl, refl)
    | inr h ↦ rw h (refl, refl, refl)
  ]

  -- A request runs the rest of the chain, once and on the state it found, exactly if its path is
  -- skipped or the limiter fails or lets it pass; then the middleware sets no status of its own. For
  -- any other request it leaves the rest of the chain alone and sets the status 429.
  pub handle-IsHandled :
      (path key : String) (l : L) (w : W)
      → IsHandled (skips path || lets_pass (limiter.allow key l).0) w (handled path key l w)
  unfolding handle pass_on
  handle-IsHandled path key l w = elim (Bool-cases (skips path)) [
    | inl h ↦ rw h (refl, refl, refl)
    | inr h ↦ rw h (answered-IsHandled (limiter.allow key l).0 (limiter.allow key l).1 w)
  ]
