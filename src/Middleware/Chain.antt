-- ===== src/Middleware/Chain.antt =====
-- internal/middleware/builder.go: executeChain and chainHTTPContext, which hands each middleware the
-- rest of the chain as its `Next`. All middlewares of a chain share one index into it, so a second call
-- of `Next` goes on where the first one stopped.
pub mod Laws
pub mod Stack
pub mod Tests
use k8s_pod_manager_graphql.Prelude.{ℕ, zero, suc, Option, none, some, List, [], ◌∷◌, length}

-- What a Handle does to the state of the request: it returns, or calls Next and goes on with its
-- answer.
pub data Action (S E : Type 0) : Type 0 where
  finish : Option E → S → Action S E
  call_next : S → (Option E → S → Action S E) → Action S E

abbrev pub Middleware : Type 0 → Type 0 → Type 0
Middleware S E = S → Action S E

module _ {S E : Type 0} (base : S → Option E × S) where
  -- An action with the middlewares that the index has not passed: its answer, and those that are left.
  -- `base` is Next of the context around the chain. With less fuel than middlewares there may be no
  -- result.
  unfoldable pub run_action :
      (fuel : ℕ)
      → List (Middleware S E)
      → Action S E
      → Option ((Option E × S) × List (Middleware S E))
  run_action fuel rest (finish e s) = some ((e, s), rest)
  run_action fuel [] (call_next s k) = run_action fuel [] (k (base s).0 (base s).1)
  run_action zero (m ∷ ms) (call_next s k) = none
  run_action (suc fuel) (m ∷ ms) (call_next s k) = elim (run_action fuel ms (m s)) [
    | none ↦ none
    | some r ↦ run_action (suc fuel) r.1 (k r.0.0 r.0.1)
  ]

  -- executeChain, and BuildChain's middleware
  unfoldable pub execute_chain : List (Middleware S E) → S → Option (Option E × S)
  execute_chain [] s = some (base s)
  execute_chain (m ∷ ms) s = elim (run_action (length ms) ms (m s)) [
    | none ↦ none
    | some r ↦ some r.0
  ]
