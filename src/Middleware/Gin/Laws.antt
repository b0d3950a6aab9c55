-- ===== src/Middleware/Gin/Laws.antt =====
-- What the stack does behind gin.
use k8s_pod_manager_graphql.Prelude.{
  ℕ, ◌≡◌, ◌⊎◌, inl, inr, String, false, any, ◌==◌, Option, none, List, ◌∷◌,
}
use k8s_pod_manager_graphql.Prelude.Int.{ℤ}
use k8s_pod_manager_graphql.Middleware.RateLimiter.{RateLimitResult}
use k8s_pod_manager_graphql.Middleware.RateLimit.{
  RateLimiter, Exchange, handle, answered, denial_calls,
}
use k8s_pod_manager_graphql.Middleware.RateLimit.Laws.{lets_pass}
use k8s_pod_manager_graphql.Middleware.Chain.Stack.{Http, AuditEntry}
use k8s_pod_manager_graphql.Middleware.Gin.{GinContext, respond, respond_all}

-- A success without a body
abbrev pub IsSuccess : AuditEntry → Type 0
IsSuccess entry = (entry.status_code ≡ 200) × (entry.error ≡ "") × (entry.request_body ≡ "")

module _ {L E : Type 0} where
  -- No error, and one more entry, which tells of a success
  abbrev pub TellsSuccess : Http L → Option E × Http L → Type 0
  TellsSuccess s (e, s') =
      (e ≡ none) × ((entry : AuditEntry) × (s'.audit ≡ entry ∷ s.audit) × IsSuccess entry)

  -- No error, and the log is as it was
  abbrev IsSilent : Http L → Option E × Http L → Type 0
  IsSilent s (e, s') = (e ≡ none) × (s'.audit ≡ s.audit)

module _ {L W E G : Type 0} (limiter : RateLimiter L E) (skip_paths : List String)
    (seconds : ℤ → String) (next : W → Option E × W) (gin : GinContext G) (status_of : G → ℕ) where
  answered-respond_all :
      ((code : ℕ) (text : String) (retry_after : ℕ) (limit : ℤ) (g : G)
        → status_of (gin.json_limits code text retry_after limit g) ≡ code)
      → (answer : E ⊎ RateLimitResult) (x : Exchange L W) (g : G) → lets_pass answer ≡ false
      → status_of (respond_all gin (answered limiter skip_paths seconds next answer x).1.calls g)
        ≡ 200
  unfolding answered respond_all respond denial_calls
  answered-respond_all sets (inl e) x g denied = absurd cc
  answered-respond_all sets (inr result) x g denied = rw denied (sets 200 _ _ _ _)

  -- Where JSON sets the status that it is given, gin answers every request whose path is not
  -- skipped and that the limiter denies with the status 200, in place of the 429 that was set before.
  pub handle-respond_all :
      ((code : ℕ) (text : String) (retry_after : ℕ) (limit : ℤ) (g : G)
        → status_of (gin.json_limits code text retry_after limit g) ≡ code)
      → (path key : String) (x : Exchange L W) (g : G)
      → any (λ skipped. path == skipped) skip_paths ≡ false
      → lets_pass (limiter.allow key x.limiter).0 ≡ false
      → status_of (respond_all gin (handle limiter skip_paths seconds next path key x).1.calls g)
        ≡ 200
  unfolding handle
  handle-respond_all sets path key x g shown denied =
      rw shown (answered-respond_all sets (limiter.allow key x.limiter).0 _ g denied)
