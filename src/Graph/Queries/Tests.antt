-- ===== src/Graph/Queries/Tests.antt =====
-- Queries over the small cluster of the services' tests.
use k8s_pod_manager_graphql.Prelude.{ℕ, ◌≡◌, none, some, List, [], ◌∷◌, true, false}
use k8s_pod_manager_graphql.Services.Client.{State}
use k8s_pod_manager_graphql.Services.Sample.{cluster, numbers, age, same_text, start}
use k8s_pod_manager_graphql.Graph.Errors.{ApiErrors}
use k8s_pod_manager_graphql.Graph.Queries.{
  QueryResolver, QueryState, namespaces, pods, all_pods, deployments, statefulsets, pod,
}
use k8s_pod_manager_graphql.Graph.Queries.Laws.{IsAudited, queries-IsAudited}
use k8s_pod_manager_graphql.Graph.Queries.Adapter.{
  Query, namespaces_query, pods_query, all_pods_query, pod_query, serve_queries,
}
use k8s_pod_manager_graphql.Graph.Queries.ReadOnly.{
  resolver, IsSame, trace-serve_queries, all_pods-pods,
}

abbrev api : ApiErrors
api = record {
  is_not_found = λ e. false;
  is_unauthorized = λ e. false;
  is_forbidden = λ e. false;
  is_already_exists = λ e. false;
  is_timeout = λ e. false;
}

abbrev idle : QueryState (State ℕ)
idle = record { world = start; log = [] }

abbrev served : QueryResolver (State ℕ)
served = resolver cluster same_text same_text api numbers true (λ created. age)

abbrev queries : List Query
queries =
    namespaces_query
    ∷ pods_query "prod"
    ∷ all_pods_query none
    ∷ pod_query "prod" "agent-1"
    ∷ pods_query "kube-system"
    ∷ []

trace-serve_queries_example :
    (serve_queries cluster same_text same_text api numbers true
      (λ created. age)
      queries
      idle).world.trace
    ≡ idle.world.trace
trace-serve_queries_example =
    trace-serve_queries cluster same_text same_text api numbers true (λ created. age) queries idle

all_pods-pods_example :
    IsSame cluster same_text same_text api numbers true
      (λ created. age)
      (all_pods served (some "prod") idle)
      (pods served "prod" idle)
all_pods-pods_example =
    all_pods-pods cluster same_text same_text api numbers true (λ created. age) "prod" idle

queries-IsAudited_example :
    IsAudited served "namespaces" "all" idle (namespaces served idle)
    × IsAudited served "pods" "prod" idle (pods served "prod" idle)
    × IsAudited served "allPods" "all" idle (all_pods served none idle)
    × IsAudited served "deployments" "prod" idle (deployments served "prod" idle)
    × IsAudited served "statefulsets" "prod" idle (statefulsets served "prod" idle)
    × ((pod served "prod" "agent-1" idle).1.log ≡ idle.log)
queries-IsAudited_example = queries-IsAudited served "prod" "agent-1" none idle
