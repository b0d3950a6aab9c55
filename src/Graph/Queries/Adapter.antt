-- ===== src/Graph/Queries/Adapter.antt =====
-- graph/resolver.go: the methods of PodServiceAdapter that the queries call, the resolver over them,
-- and the queries that the server answers one after the other.
use k8s_pod_manager_graphql.Prelude.{String, Bool, Option, none, some, List, [], ◌∷◌}
use k8s_pod_manager_graphql.Prelude.Int.{ℤ, pos}
use k8s_pod_manager_graphql.Services.Types.{WorkloadObject}
use k8s_pod_manager_graphql.Services.Client.{
  Result, ok, err, Client, WorkloadKind, deployment, stateful_set, Exec, State, read,
}
use k8s_pod_manager_graphql.Services.Selectors.{ListOptions}
use k8s_pod_manager_graphql.Services.Age.{Duration}
use k8s_pod_manager_graphql.Services.PodInfo.{Quantity}
use k8s_pod_manager_graphql.Services.Lists as Lists
use k8s_pod_manager_graphql.Graph.Validation.{default_input_validator}
use k8s_pod_manager_graphql.Graph.Errors.{
  ApiErrors, handle_service_error, handle_validation_error, handle_not_found_error,
}
use k8s_pod_manager_graphql.Graph.Queries.{
  PodReader, QueryResolver, QueryState, namespaces, pods, all_pods, pod, deployments, statefulsets,
}

-- &services.ListOptions{} with a namespace
unfoldable pub default_options : (namespace : String) → ListOptions
default_options namespace = record {
  namespace = namespace;
  label_filter = [];
  field_filter = [];
  limit = pos 0;
  continue = "";
}

-- The options of ListAllPods
unfoldable pub all_pods_options : Option String → ListOptions
all_pods_options none = default_options ""
all_pods_options (some namespace) = default_options namespace

-- A pointer to the pod, nil beside an error
unfoldable pub pointer_result : {A : Type 0} → Result A → Result (Option A)
pointer_result (ok a) = ok (some a)
pointer_result (err e) = err e

-- A query of a client
pub data Query : Type 0 where
  namespaces_query : Query
  pods_query deployments_query statefulsets_query : (namespace : String) → Query
  all_pods_query : Option String → Query
  pod_query : (namespace name : String) → Query

-- `title` is strings.Title, `to_lower` strings.ToLower.
module _ {Q : Type 0} (client : Client Q) (title to_lower : String → String) (api : ApiErrors)
    (quantity : Quantity Q) (enable_resource_info : Bool) (since : ℤ → Duration) where
  -- ListDeployments and ListStatefulSets, which ask the client and not the services
  unfoldable pub list_objects :
      WorkloadKind → (namespace : String) → Exec client.World (Result (List WorkloadObject))
  list_objects kind namespace = read (client.list_workloads kind namespace Lists.no_options)

  -- PodServiceAdapter, as the queries see it
  unfoldable pub reader : PodReader (State client.World)
  reader = record {
    list_namespaces =
        Lists.list_namespaces client title quantity enable_resource_info since
          (some (default_options ""));
    list_pods = λ namespace.
        Lists.list_pods client title quantity enable_resource_info since namespace
          (some (default_options ""));
    list_all_pods = λ namespace.
        Lists.list_all_pods client title quantity enable_resource_info since
          (some (all_pods_options namespace));
    get_pod = λ namespace name s.
        let (found, s') =
          Lists.get_pod client title quantity enable_resource_info since namespace name s in
        (pointer_result found, s');
    list_deployments = list_objects deployment;
    list_stateful_sets = list_objects stateful_set;
  }

  -- NewDefaultResolver, as the queries see it
  unfoldable pub query_resolver : QueryResolver (State client.World)
  query_resolver = record {
    pod_service = reader;
    validator = default_input_validator;
    handle_validation_error = handle_validation_error;
    handle_service_error = handle_service_error to_lower api;
    handle_not_found_error = handle_not_found_error title;
  }

  -- One query
  unfoldable pub serve_query :
      Query → QueryState (State client.World) → QueryState (State client.World)
  serve_query namespaces_query s = (namespaces query_resolver s).1
  serve_query (pods_query namespace) s = (pods query_resolver namespace s).1
  serve_query (deployments_query namespace) s = (deployments query_resolver namespace s).1
  serve_query (statefulsets_query namespace) s = (statefulsets query_resolver namespace s).1
  serve_query (all_pods_query namespace) s = (all_pods query_resolver namespace s).1
  serve_query (pod_query namespace name) s = (pod query_resolver namespace name s).1

  -- Queries, one after the other
  unfoldable pub serve_queries :
      List Query → QueryState (State client.World) → QueryState (State client.World)
  serve_queries [] s = s
  serve_queries (q ∷ qs) s = serve_queries qs (serve_query q s)
