-- ===== src/Graph/Adapter.antt =====
-- graph/resolver.go: PodServiceAdapter, which puts the services behind the mutations, the resolver
-- that main.go builds of it, and the requests that the server serves one after the other.
pub mod Laws
pub mod Tests
use k8s_pod_manager_graphql.Prelude.{String, Option, none, some, List, [], ◌∷◌}
use k8s_pod_manager_graphql.Prelude.Int.{ℤ}
use k8s_pod_manager_graphql.Services.Errors.{GoError}
use k8s_pod_manager_graphql.Services.Types.{ServiceOptions}
use k8s_pod_manager_graphql.Services.Client.{
  Result, ok, err, Outcome, returned, panicked, Client, State, Effect,
}
use k8s_pod_manager_graphql.Services.Restart.{RestartResult}
use k8s_pod_manager_graphql.Services.Workload as Workload
use k8s_pod_manager_graphql.Services.Pods as Pods
use k8s_pod_manager_graphql.Graph.Validation.{default_input_validator}
use k8s_pod_manager_graphql.Graph.Errors.{ApiErrors, handle_service_error, handle_validation_error}
use k8s_pod_manager_graphql.Graph.Mutations.{
  PodService, Resolver, ResolverState, restart_pod, delete_pod, scale_deployment,
  scale_stateful_set,
}

-- RestartPod of the adapter reads the fields of the result, which dereferences it.
unfoldable pub dereferenced : Outcome (Option RestartResult) → Outcome RestartResult
dereferenced (returned (ok (some r))) = returned (ok r)
dereferenced (returned (ok none)) = panicked "nil pointer dereference"
dereferenced (returned (err e)) = returned (err e)
dereferenced (panicked text) = panicked text

-- A function with no result but an error
unfoldable pub error_result : Option GoError → Outcome (Unit {0})
error_result none = returned (ok tt)
error_result (some e) = returned (err e)

-- A mutation of a client
pub data Request : Type 0 where
  restart_request : (namespace name : String) → Option String → Request
  delete_request : (namespace name : String) → Option String → Request
  scale_deployment_request : (namespace name : String) → (replicas : ℤ) → Option String → Request
  scale_stateful_set_request : (namespace name : String) → (replicas : ℤ) → Option String → Request

-- `title` is strings.Title, `to_lower` strings.ToLower, and `now` the clock in RFC 3339.
module _ {Q : Type 0} (client : Client Q) (options : ServiceOptions)
    (title to_lower : String → String) (api : ApiErrors) where
  -- PodServiceAdapter
  unfoldable pub adapter : (now : String) → PodService (State client.World)
  adapter now = record {
    restart_pod = λ namespace name user s.
        let (o, s') = Pods.restart_audited client options namespace name user title now s in
        (dereferenced o, s');
    delete_pod = λ namespace name user s.
        let (e, s') = Pods.delete_pod client options namespace name user s in (error_result e, s');
    scale_deployment = λ namespace name replicas user s.
        Workload.scale_deployment client options namespace name user replicas s;
    scale_stateful_set = λ namespace name replicas user s.
        Workload.scale_stateful_set client options namespace name user replicas s;
  }

  -- NewDefaultResolver
  unfoldable pub new_default_resolver : (now : String) → Resolver (State client.World)
  new_default_resolver now = record {
    pod_service = adapter now;
    validator = default_input_validator;
    handle_validation_error = handle_validation_error;
    handle_service_error = handle_service_error to_lower api;
  }

  -- One request, at the time `now`
  unfoldable pub serve :
      (now : String)
      → Request
      → ResolverState (State client.World)
      → ResolverState (State client.World)
  serve now (restart_request namespace name user) s =
      (restart_pod (new_default_resolver now) namespace name user s).1
  serve now (delete_request namespace name user) s =
      (delete_pod (new_default_resolver now) namespace name user s).1
  serve now (scale_deployment_request namespace name replicas user) s =
      (scale_deployment (new_default_resolver now) namespace name user replicas s).1
  serve now (scale_stateful_set_request namespace name replicas user) s =
      (scale_stateful_set (new_default_resolver now) namespace name user replicas s).1

  -- Requests with their times, one after the other
  unfoldable pub serve_all :
      List (String × Request)
      → ResolverState (State client.World)
      → ResolverState (State client.World)
  serve_all [] s = s
  serve_all ((now, q) ∷ qs) s = serve_all qs (serve now q s)
