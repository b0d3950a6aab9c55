-- ===== src/Graph/Adapter/Tests.antt =====
-- Requests that the server serves over the cluster of Services/Tests.
use k8s_pod_manager_graphql.Prelude.{String, none, some, List, [], ◌∷◌, All, false}
use k8s_pod_manager_graphql.Prelude.Int.{pos}
use k8s_pod_manager_graphql.Services.Client.{State}
use k8s_pod_manager_graphql.Services.Tests.{cluster, options, same}
use k8s_pod_manager_graphql.Graph.Errors.{ApiErrors}
use k8s_pod_manager_graphql.Graph.Mutations.{ResolverState, restart_pod, delete_pod}
use k8s_pod_manager_graphql.Graph.Adapter.{
  Request, restart_request, delete_request, scale_deployment_request, scale_stateful_set_request,
  new_default_resolver, serve_all,
}
use k8s_pod_manager_graphql.Graph.Adapter.Laws.{
  IsPermitted, IsAnswered, serve_all-IsPermitted, mutations-IsAnswered,
}

abbrev api : ApiErrors
api = record {
  is_not_found = λ e. false;
  is_unauthorized = λ e. false;
  is_forbidden = λ e. false;
  is_already_exists = λ e. false;
  is_timeout = λ e. false;
}

abbrev idle : ResolverState (State cluster.World)
idle = record { world = record { world = 0; trace = [] }; log = [] }

abbrev requests : List (String × Request)
requests =
    ("t1", delete_request "prod" "agent-1" none)
    ∷ ("t2", restart_request "kube-system" "agent-1" none)
    ∷ ("t3", scale_deployment_request "prod" "web" (pos 5) (some "ann"))
    ∷ ("t4", scale_stateful_set_request "kube-public" "db" (pos 0) none)
    ∷ []

serve_all-IsPermitted_example :
    All IsPermitted (serve_all cluster options same same api requests idle).world.trace
serve_all-IsPermitted_example = serve_all-IsPermitted cluster options same same api requests idle tt

mutations-IsAnswered_example :
    IsAnswered
      (restart_pod
        (new_default_resolver cluster options same same api "t1")
        "prod"
        "agent-1"
        none
        idle).0
    × IsAnswered
        (delete_pod
          (new_default_resolver cluster options same same api "t1")
          "prod"
          "agent-1"
          none
          idle).0
mutations-IsAnswered_example =
    mutations-IsAnswered cluster options same same api "t1" "prod" "agent-1" none idle
