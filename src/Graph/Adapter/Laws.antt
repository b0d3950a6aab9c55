-- ===== src/Graph/Adapter/Laws.antt =====
-- What the mutations do to the cluster, through the resolvers, the adapter and the services.
use k8s_pod_manager_graphql.Prelude.{
  String, ◌≡◌, refl, sym, subst, Option, none, some, List, [], ◌∷◌, All,
}
use k8s_pod_manager_graphql.Prelude.Int.{wrap_int32}
use k8s_pod_manager_graphql.Services.Errors.{GoError}
use k8s_pod_manager_graphql.Services.Types.{ServiceOptions}
use k8s_pod_manager_graphql.Services.Client.{
  ok, err, Outcome, returned, panicked, Client, deployment, stateful_set, Effect, State,
}
use k8s_pod_manager_graphql.Services.Restart.{RestartResult}
use k8s_pod_manager_graphql.Services.Workload as Workload
use k8s_pod_manager_graphql.Services.Pods as Pods
use k8s_pod_manager_graphql.Services.Pods.Laws.{HasResult, restart_audited-HasResult}
use k8s_pod_manager_graphql.Services.Traces.{
  namespace_of, Stays, All-Stays, restart_audited-Stays, delete_pod-Stays, scale-Stays,
}
use k8s_pod_manager_graphql.Graph.Validation.Laws.{IsNamespace}
use k8s_pod_manager_graphql.Graph.Errors.{ApiErrors}
use k8s_pod_manager_graphql.Graph.Mutations.{
  Resolver, ResolverState, Reply, data_of, error_of, crashed, get_user_or_default, answer, mutation,
  pod_checks, scale_checks, restart_pod, delete_pod, scale_deployment, scale_stateful_set,
}
use k8s_pod_manager_graphql.Graph.Mutations.Laws.{pod_checks-IsTarget, scale_checks-IsTarget}
use k8s_pod_manager_graphql.Graph.Adapter.{
  dereferenced, error_result, Request, restart_request, delete_request, scale_deployment_request,
  scale_stateful_set_request, adapter, new_default_resolver, serve, serve_all,
}

-- An effect that the validation of requests permits: in a valid namespace that is not reserved
abbrev pub IsPermitted : Effect → Type 0
IsPermitted e = IsNamespace (namespace_of e)

IsNamespace-IsPermitted :
    (namespace : String)
    → IsNamespace namespace
    → (e : Effect) → namespace_of e ≡ namespace
    → IsPermitted e
IsNamespace-IsPermitted namespace h e p = subst IsNamespace (sym p) h

-- The client got data or an error.
abbrev pub IsAnswered : {A : Type 0} → Reply A → Type 0
IsAnswered (data_of a) = Unit
IsAnswered (error_of e) = Unit
IsAnswered (crashed text) = ⊥

abbrev IsReturn : {A : Type 0} → Outcome A → Type 0
IsReturn (returned r) = Unit
IsReturn (panicked text) = ⊥

module _ {W : Type 0} (r : Resolver (State W)) (operation namespace name : String)
    (user : Option String) {A B : Type 0} (call : String → State W → Outcome A × State W)
    (build : A → B) (s : ResolverState (State W)) where
  abbrev called : Outcome A × State W
  called = call (get_user_or_default user) s.world

  world-answer :
      (o : Outcome A) (w : State W)
      → (answer r operation namespace name user build s.log (o, w)).1.world ≡ w
  unfolding answer
  world-answer (returned (ok a)) w = refl
  world-answer (returned (err e)) w = refl
  world-answer (panicked text) w = refl

  mutation-IsPermitted :
      (checks : Option (String × String))
      → (checks ≡ none → IsNamespace namespace)
      → Stays namespace s.world.trace called.1.trace
      → All IsPermitted s.world.trace
      → All IsPermitted (mutation r operation namespace name user checks call build s).1.world.trace
  unfolding mutation
  mutation-IsPermitted (some (field, e)) valid stays h = h
  mutation-IsPermitted none valid stays h =
      subst (λ w. All IsPermitted w.trace) (sym (world-answer called.0 called.1))
        (All-Stays (IsNamespace-IsPermitted namespace (valid refl)) stays h)

  answer-IsAnswered :
      (o : Outcome A) (w : State W)
      → IsReturn o
      → IsAnswered (answer r operation namespace name user build s.log (o, w)).0
  unfolding answer
  answer-IsAnswered (returned (ok a)) w h = tt
  answer-IsAnswered (returned (err e)) w h = tt
  answer-IsAnswered (panicked text) w h = h

  mutation-IsAnswered :
      (checks : Option (String × String))
      → IsReturn called.0
      → IsAnswered (mutation r operation namespace name user checks call build s).0
  unfolding mutation
  mutation-IsAnswered (some (field, e)) h = tt
  mutation-IsAnswered none h = answer-IsAnswered called.0 called.1 h

dereferenced-IsReturn :
    (o : Outcome (Option RestartResult)) → HasResult o → IsReturn (dereferenced o)
unfolding dereferenced
dereferenced-IsReturn (returned (ok (some r))) h = tt
dereferenced-IsReturn (returned (ok none)) h = h
dereferenced-IsReturn (returned (err e)) h = tt
dereferenced-IsReturn (panicked text) h = h

error_result-IsReturn : (e : Option GoError) → IsReturn (error_result e)
unfolding error_result
error_result-IsReturn none = tt
error_result-IsReturn (some e) = tt

module _ {Q : Type 0} (client : Client Q) (options : ServiceOptions)
    (title to_lower : String → String) (api : ApiErrors) where
  abbrev resolver : String → Resolver (State client.World)
  resolver = new_default_resolver client options title to_lower api

  serve-IsPermitted :
      (now : String) (q : Request) (s : ResolverState (State client.World))
      → All IsPermitted s.world.trace
      → All IsPermitted (serve client options title to_lower api now q s).world.trace
  unfolding serve restart_pod delete_pod scale_deployment scale_stateful_set adapter
      new_default_resolver Workload.scale_deployment Workload.scale_stateful_set
  serve-IsPermitted now (restart_request namespace name user) s =
      mutation-IsPermitted (resolver now) _ namespace name user _ _ s
        (pod_checks (resolver now) namespace name user)
        (λ e. (pod_checks-IsTarget (resolver now) refl namespace name user s e).0)
        (restart_audited-Stays client namespace options (get_user_or_default user) name title now
          s.world)
  serve-IsPermitted now (delete_request namespace name user) s =
      mutation-IsPermitted (resolver now) _ namespace name user _ _ s
        (pod_checks (resolver now) namespace name user)
        (λ e. (pod_checks-IsTarget (resolver now) refl namespace name user s e).0)
        (delete_pod-Stays client namespace options (get_user_or_default user) name s.world)
  serve-IsPermitted now (scale_deployment_request namespace name replicas user) s =
      mutation-IsPermitted (resolver now) _ namespace name user _ _ s
        (scale_checks (resolver now) namespace name user replicas)
        (λ e. (scale_checks-IsTarget (resolver now) refl namespace name user s replicas e).0.0)
        (scale-Stays client namespace options (get_user_or_default user) deployment name
          (wrap_int32 replicas) s.world)
  serve-IsPermitted now (scale_stateful_set_request namespace name replicas user) s =
      mutation-IsPermitted (resolver now) _ namespace name user _ _ s
        (scale_checks (resolver now) namespace name user replicas)
        (λ e. (scale_checks-IsTarget (resolver now) refl namespace name user s replicas e).0.0)
        (scale-Stays client namespace options (get_user_or_default user) stateful_set name
          (wrap_int32 replicas) s.world)

  -- Whatever mutations the server serves one after the other, and whatever the cluster answers, each
  -- pod that it deletes, each workload that it patches or updates, and each operation that it audits
  -- lies in a valid namespace that is none of the reserved ones, if that was so at the start.
  pub serve_all-IsPermitted :
      (qs : List (String × Request)) (s : ResolverState (State client.World))
      → All IsPermitted s.world.trace
      → All IsPermitted (serve_all client options title to_lower api qs s).world.trace
  unfolding serve_all
  serve_all-IsPermitted [] s h = h
  serve_all-IsPermitted ((now, q) ∷ qs) s h =
      serve_all-IsPermitted qs (serve client options title to_lower api now q s)
        (serve-IsPermitted now q s h)

  -- A restart or a deletion is always answered, with data or an error: no answer of the cluster makes
  -- it panic.
  pub mutations-IsAnswered :
      (now namespace name : String) (user : Option String) (s : ResolverState (State client.World))
      → IsAnswered (restart_pod (resolver now) namespace name user s).0
        × IsAnswered (delete_pod (resolver now) namespace name user s).0
  unfolding restart_pod delete_pod adapter new_default_resolver
  mutations-IsAnswered now namespace name user s = (
    mutation-IsAnswered (resolver now) _ namespace name user _ _ s
        (pod_checks (resolver now) namespace name user)
        (dereferenced-IsReturn
          (Pods.restart_audited client options namespace name (get_user_or_default user) title now
            s.world).0
          (restart_audited-HasResult client options namespace name (get_user_or_default user) title
            now s.world)),
    mutation-IsAnswered (resolver now) _ namespace name user _ _ s
        (pod_checks (resolver now) namespace name user)
        (error_result-IsReturn
          (Pods.delete_pod client options namespace name (get_user_or_default user) s.world).0),
  )
