-- ===== src/Graph/Queries.antt =====
-- graph/schema.resolvers.go, the queries: validation, the call of the service, the audit record and the
-- response. A number of items is taken as the length of its list.
pub mod Laws
pub mod Adapter
pub mod ReadOnly
pub mod Tests
use k8s_pod_manager_graphql.Prelude.{
  ℕ, String, ◌⊎◌, inl, inr, Option, none, some, List, [], ◌∷◌, map, length,
}
use k8s_pod_manager_graphql.Services.Types.{WorkloadObject}
use k8s_pod_manager_graphql.Services.Errors.{GoError}
use k8s_pod_manager_graphql.Services.Client.{Result, ok, err}
use k8s_pod_manager_graphql.Services.PodInfo as Info
use k8s_pod_manager_graphql.Services.Lists as Lists
use k8s_pod_manager_graphql.Graph.Validation.{InputValidator}
use k8s_pod_manager_graphql.Graph.Errors.{GraphqlError}
use k8s_pod_manager_graphql.Graph.Converter.{
  PodInfo, NamespaceInfo, DeploymentInfo, StatefulSetInfo, convert_pod_info, convert_namespace_info,
  convert_deployment_info, convert_stateful_set_info,
}

-- The arguments of LogQuery
pub record QueryRecord : Type 0 where
  pub operation : String
  pub namespace : String
  pub resource_count : ℕ

-- What PodServiceInterface promises a query
pub record PodReader (W : Type 0) : Type 0 where
  pub list_namespaces : W → Result (List Lists.NamespaceInfo) × W
  pub list_pods : (namespace : String) → W → Result (List Info.PodInfo) × W
  pub list_all_pods : Option String → W → Result (List Info.PodInfo) × W
  -- the pod may be nil
  pub get_pod : (namespace name : String) → W → Result (Option Info.PodInfo) × W
  pub list_deployments : (namespace : String) → W → Result (List WorkloadObject) × W
  pub list_stateful_sets : (namespace : String) → W → Result (List WorkloadObject) × W

-- What the queries are injected with, the default type converter apart. The methods of the error
-- handler take an error that is not nil; a validation error is its text.
pub record QueryResolver (W : Type 0) : Type 0 where
  pub pod_service : PodReader W
  pub validator : InputValidator
  pub handle_validation_error : (text field : String) → GraphqlError
  pub handle_service_error : GoError → (operation : String) → GraphqlError
  pub handle_not_found_error : (resource namespace name : String) → GraphqlError

-- The state of the services, and the audit log of the queries, the latest record first
pub record QueryState (W : Type 0) : Type 0 where
  pub world : W
  pub log : List QueryRecord

-- The response of a list: its namespace, where it has one, the count and the items
pub record ListResponse (A : Type 0) : Type 0 where
  pub namespace : Option String
  pub count : ℕ
  pub items : List A

module _ {W : Type 0} (r : QueryResolver W) where
  module _ {A B : Type 0} (operation service_operation audited : String) (shown : Option String)
      (convert : A → B) where
    abbrev pub record_of : ℕ → QueryRecord
    record_of n = record { operation = operation; namespace = audited; resource_count = n }

    -- What the list queries do with the answer of the service, and the log before it
    unfoldable pub listed :
        List QueryRecord → Result (List A) × W → (GraphqlError ⊎ ListResponse B) × QueryState W
    listed log (err e, w) = (
      inl (r.handle_service_error e service_operation),
      record { world = w; log = record_of 0 ∷ log },
    )
    listed log (ok found, w) =
        let items = map convert found in
        (
          inr (record { namespace = shown; count = length items; items = items }),
          record { world = w; log = record_of (length items) ∷ log },
        )

    -- The part that they share, after the validation
    unfoldable pub list_query :
        (W → Result (List A) × W) → QueryState W → (GraphqlError ⊎ ListResponse B) × QueryState W
    list_query call s = listed s.log (call s.world)

  -- The validation of the namespace before it
  unfoldable pub validated_query :
      {B : Type 0} (operation namespace : String)
      → (QueryState W → (GraphqlError ⊎ ListResponse B) × QueryState W)
      → QueryState W
      → (GraphqlError ⊎ ListResponse B) × QueryState W
  validated_query operation namespace query s = elim (r.validator.namespace namespace) [
    | some e ↦ (
      inl (r.handle_validation_error e "namespace"),
      record s {
        log = record { operation = operation; namespace = namespace; resource_count = 0 } ∷ s.log;
      },
    )
    | none ↦ query s
  ]

  -- Namespaces
  unfoldable pub namespaces :
      QueryState W → (GraphqlError ⊎ ListResponse NamespaceInfo) × QueryState W
  namespaces =
      list_query "namespaces" "listNamespaces" "all" none convert_namespace_info
        r.pod_service.list_namespaces

  -- Pods
  unfoldable pub pods :
      (namespace : String) → QueryState W → (GraphqlError ⊎ ListResponse PodInfo) × QueryState W
  pods namespace = validated_query "pods" namespace (
      list_query "pods" "listPods" namespace (some namespace) convert_pod_info
        (r.pod_service.list_pods namespace))

  -- AllPods
  unfoldable pub all_pods :
      (namespace : Option String)
      → QueryState W
      → (GraphqlError ⊎ ListResponse PodInfo) × QueryState W
  all_pods none =
      list_query "allPods" "listAllPods" "all" none convert_pod_info
        (r.pod_service.list_all_pods none)
  all_pods (some namespace) = validated_query "allPods" namespace (
      list_query "allPods" "listAllPods" namespace none convert_pod_info
        (r.pod_service.list_all_pods (some namespace)))

  -- Deployments
  unfoldable pub deployments :
      (namespace : String)
      → QueryState W
      → (GraphqlError ⊎ ListResponse DeploymentInfo) × QueryState W
  deployments namespace = validated_query "deployments" namespace (
      list_query "deployments" "listDeployments" namespace (some namespace) convert_deployment_info
        (r.pod_service.list_deployments namespace))

  -- Statefulsets
  unfoldable pub statefulsets :
      (namespace : String)
      → QueryState W
      → (GraphqlError ⊎ ListResponse StatefulSetInfo) × QueryState W
  statefulsets namespace = validated_query "statefulsets" namespace (
      list_query "statefulsets" "listStatefulSets" namespace (some namespace)
        convert_stateful_set_info (r.pod_service.list_stateful_sets namespace))

  -- Pod, after the validation
  unfoldable pub found_pod :
      (namespace name : String) → Result (Option Info.PodInfo) → GraphqlError ⊎ PodInfo
  found_pod namespace name (err e) = inl (r.handle_service_error e "getPod")
  found_pod namespace name (ok none) = inl (r.handle_not_found_error "pod" namespace name)
  found_pod namespace name (ok (some pod)) = inr (convert_pod_info pod)

  -- Pod
  unfoldable pub pod :
      (namespace name : String) → QueryState W → (GraphqlError ⊎ PodInfo) × QueryState W
  pod namespace name s = elim (r.validator.namespace namespace) [
    | some e ↦ (inl (r.handle_validation_error e "namespace"), s)
    | none ↦ elim (r.validator.pod_name name) [
      | some e ↦ (inl (r.handle_validation_error e "name"), s)
      | none ↦
          let (found, w) = r.pod_service.get_pod namespace name s.world in
          (found_pod namespace name found, record s { world = w })
    ]
  ]
