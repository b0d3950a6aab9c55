-- ===== src/Middleware/Chain/Tests.antt =====
-- Chains of counters.
use k8s_pod_manager_graphql.Prelude.{ℕ, suc, ◌≡◌, refl, Option, some, [], ◌∷◌}
use k8s_pod_manager_graphql.Middleware.Chain.{
  finish, call_next, Middleware, run_action, execute_chain,
}
use k8s_pod_manager_graphql.Middleware.Chain.Laws.{execute_chain-returns}

-- Counts, and passes on.
abbrev once : Middleware ℕ ℕ
once n = call_next (suc n) finish

-- Calls Next again.
abbrev twice : Middleware ℕ ℕ
twice n = call_next n (λ e m. call_next (suc m) finish)

abbrev base : ℕ → Option ℕ × ℕ
base n = (some n, suc n)

-- The second call of Next finds the chain used up.
second_call : execute_chain base (twice ∷ once ∷ []) 0 ≡ some (some 3, 4)
unfolding execute_chain run_action
second_call = refl

execute_chain-returns_example :
    (r : Option ℕ × ℕ) × (execute_chain base (twice ∷ twice ∷ once ∷ []) 0 ≡ some r)
execute_chain-returns_example = execute_chain-returns base (twice ∷ twice ∷ once ∷ []) 0
