-- ===== src/Middleware/Chain/Laws.antt =====
-- A chain returns, and it is the composition of its middlewares.
use k8s_pod_manager_graphql.Prelude.{
  ℕ, zero, suc, ◌≤◌, ◌≡◌, refl, ap, ◌∙◌, ◌⊎◌, inl, inr, Option, none, some, List, [], ◌∷◌, length,
  All, arith,
}
use k8s_pod_manager_graphql.Middleware.Chain.{
  Action, finish, call_next, Middleware, run_action, execute_chain,
}

-- A handler that runs once whatever it calls
abbrev pub run_around : {S E : Type 0} → Action S E → (S → Option E × S) → Option E × S
run_around (finish e s) inner = (e, s)
run_around (call_next s k) inner = run_around (k (inner s).0 (inner s).1) inner

-- Each middleware around the composition of those after it, and `base` at the heart
abbrev pub composed : {S E : Type 0} → (S → Option E × S) → List (Middleware S E) → S → Option E × S
composed base [] s = base s
composed base (m ∷ ms) s = run_around (m s) (composed base ms)

-- The action calls Next at most once.
abbrev pub IsOnce : {S E : Type 0} → Action S E → Type 0
IsOnce (finish e s) = Unit
IsOnce {S} {E} (call_next s k) =
    (e : Option E) (s' : S) → (r : Option E × S) × (k e s' ≡ finish r.0 r.1)

abbrev answer_of : {A B : Type 0} → Option (A × B) → Option A
answer_of none = none
answer_of (some r) = some r.0

module _ {S E : Type 0} (base : S → Option E × S) where
  returns_lem :
      (fuel : ℕ) (rest : List (Middleware S E)) (a : Action S E)
      → length rest ≤ fuel
      → (r : (Option E × S) × List (Middleware S E)) × (run_action base fuel rest a ≡ some r)
        × (length r.1 ≤ length rest)
  unfolding run_action
  returns_lem fuel rest (finish e s) h = (_, refl, omega arith)
  returns_lem fuel [] (call_next s k) h = returns_lem fuel [] (k (base s).0 (base s).1) h
  returns_lem zero (m ∷ ms) (call_next s k) h = absurd (omega arith)
  returns_lem (suc fuel) (m ∷ ms) (call_next s k) h =
      let (r, e, shorter) = returns_lem fuel ms (m s) (omega arith) in
      let (q, f, shorter') =
        returns_lem (suc fuel) r.1 (k r.0.0 r.0.1) (omega (arith, h, shorter)) in
      (q, rw e f, omega (arith, shorter, shorter'))

  -- Every chain returns, whatever its middlewares do and however often they call Next: each call of
  -- Next passes a middleware or leaves the chain.
  pub execute_chain-returns :
      (ms : List (Middleware S E)) (s : S) → (r : Option E × S) × (execute_chain base ms s ≡ some r)
  unfolding execute_chain
  execute_chain-returns [] s = (base s, refl)
  execute_chain-returns (m ∷ ms) s =
      let (r, e, shorter) = returns_lem (length ms) ms (m s) (omega arith) in (r.0, ap answer_of e)

  run_once :
      (fuel : ℕ) (ms : List (Middleware S E)) (a : Action S E)
      → length ms ≤ fuel
      → All (λ m. (s : S) → IsOnce (m s)) ms
      → IsOnce a
      → (rest : List (Middleware S E)) × (run_action base fuel ms a
          ≡ some (run_around a (composed base ms), rest))
  unfolding run_action
  run_once fuel ms (finish e s) h all once = (ms, refl)
  run_once fuel [] (call_next s k) h all once =
      let (r, e) = once (base s).0 (base s).1 in ([], rw e)
  run_once zero (m ∷ ms) (call_next s k) h all once = absurd (omega arith)
  run_once (suc fuel) (m ∷ ms) (call_next s k) h all once =
      let (rest, e) = run_once fuel ms (m s) (omega arith) all.1 (all.0 s) in
      let (r, f) = once (composed base (m ∷ ms) s).0 (composed base (m ∷ ms) s).1 in
      (rest, rw (e, f))

  -- A chain whose middlewares call Next at most once is their composition: each runs around all that
  -- come after it.
  pub execute_chain-composed :
      (ms : List (Middleware S E)) (s : S)
      → All (λ m. (s : S) → IsOnce (m s)) ms
      → execute_chain base ms s ≡ some (composed base ms s)
  unfolding execute_chain
  execute_chain-composed [] s all = refl
  execute_chain-composed (m ∷ ms) s all =
      let (rest, e) = run_once (length ms) ms (m s) (omega arith) all.1 (all.0 s) in ap answer_of e

-- What a chain makes of the handlers around which it stands, who are a parameter of it: it runs them once, in
-- a state and with what follows that do not depend on them, or it never runs them.
abbrev pub RunsAtMostOnce : {S E : Type 0} → ((S → Option E × S) → Option E × S) → Type 0
RunsAtMostOnce {S} {E} chain =
    ((s : S) × (after : Option E × S → Option E × S) × ((base : S → Option E × S)
        → chain base ≡ after (base s)))
    ⊎ ((r : Option E × S) × ((base : S → Option E × S) → chain base ≡ r))

module _ {S E : Type 0} where
  run_around-RunsAtMostOnce :
      (inner : (S → Option E × S) → S → Option E × S) (a : Action S E)
      → IsOnce a
      → ((s : S) → RunsAtMostOnce (λ base. inner base s))
      → RunsAtMostOnce (λ base. run_around a (inner base))
  run_around-RunsAtMostOnce inner (finish e s) once h = inr ((e, s), λ base. refl)
  run_around-RunsAtMostOnce inner (call_next s k) once h =
      let around : (Option E × S) → Option E × S = λ q. (once q.0 q.1).0 in
      let same : (q : Option E × S) (f : S → Option E × S) → run_around (k q.0 q.1) f ≡ around q =
        λ q f. ap (λ a. run_around a f) (once q.0 q.1).1 in
      elim (h s) [
        | inl (s', after, e) ↦ inl (
          s',
          (λ q. around (after q)),
          (λ base. same (inner base s) (inner base) ∙ ap around (e base)),
        )
        | inr (r, e) ↦
            inr (around r, (λ base. same (inner base s) (inner base) ∙ ap around (e base)))
      ]

  -- Middlewares that each call Next at most once run the handlers at most once together.
  pub composed-RunsAtMostOnce :
      (ms : List (Middleware S E)) (s : S)
      → All (λ m. (s : S) → IsOnce (m s)) ms
      → RunsAtMostOnce (λ base. composed base ms s)
  composed-RunsAtMostOnce [] s all = inl (s, (λ q. q), (λ base. refl))
  composed-RunsAtMostOnce (m ∷ ms) s all =
      run_around-RunsAtMostOnce (λ base. composed base ms) (m s) (all.0 s)
        (λ s'. composed-RunsAtMostOnce ms s' all.1)
