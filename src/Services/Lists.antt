-- ===== src/Services/Lists.antt =====
-- internal/services: the lookups and lists of pod_service_impl.go, namespace_service_impl.go,
-- deployment_service_impl.go and statefulset_service_impl.go.
pub mod Laws
use k8s_pod_manager_graphql.Prelude.{
  String, Bool, ◌||◌, Option, none, some, List, [], ◌∷◌, map, not, ◌==◌, if◌then◌else◌,
}
use k8s_pod_manager_graphql.Prelude.Int.{ℤ, pos}
use k8s_pod_manager_graphql.Prelude.Text.{◌<>◌}
use k8s_pod_manager_graphql.Prelude.GoMap.{GoMap}
use k8s_pod_manager_graphql.Services.Errors.{
  Cause, nil, caused, new_validation_error, new_not_found_error, new_internal_error,
}
use k8s_pod_manager_graphql.Services.Types.{Pod, Namespace, WorkloadObject, ApiListOptions}
use k8s_pod_manager_graphql.Services.Client.{
  Result, ok, err, Client, WorkloadKind, deployment, stateful_set, Exec, ◌>>=◌, pure, read,
  when◌run◌otherwise◌,
}
use k8s_pod_manager_graphql.Services.Controller.{detect_controller}
use k8s_pod_manager_graphql.Services.Selectors.{ListOptions, build_list_options}
use k8s_pod_manager_graphql.Services.Age.{Duration, format_namespace_duration}
use k8s_pod_manager_graphql.Services.PodInfo.{PodInfo, Quantity, convert_pod, convert_pods}

-- NamespaceInfo
pub record NamespaceInfo : Type 0 where
  pub name : String
  pub status : String
  pub age : String
  pub labels : GoMap String
  pub annotations : GoMap String
  pub created_at : ℤ

-- metav1.ListOptions{}
abbrev pub no_options : ApiListOptions
no_options = record {
  label_selector = "";
  field_selector = "";
  limit = pos 0;
  continue = "";
  resource_version = "";
}

-- The options of a list, which may be nil
unfoldable pub list_options : Option ListOptions → ApiListOptions
list_options none = no_options
list_options (some opts) = build_list_options opts

-- The namespace of ListAllPods, "" for all
unfoldable pub listed_namespace : Option ListOptions → String
listed_namespace none = ""
listed_namespace (some opts) = if not (opts.namespace == "") then opts.namespace else ""

-- convertNamespaceToInfo; `since` is the time since a creation timestamp.
unfoldable pub convert_namespace_to_info : (since : ℤ → Duration) → Namespace → NamespaceInfo
convert_namespace_to_info since ns = record {
  name = ns.name;
  status = if not (ns.phase == "Active") then ns.phase else "Active";
  age = format_namespace_duration (since ns.creation_timestamp);
  labels = ns.labels;
  annotations = ns.annotations;
  created_at = ns.creation_timestamp;
}

abbrev pub plural : WorkloadKind → String
plural deployment = "deployments"
plural stateful_set = "statefulsets"

module _ {Q : Type 0} (client : Client Q) (title : String → String) (quantity : Quantity Q)
    (enable_resource_info : Bool) (since : ℤ → Duration) where
  -- ListNamespaces
  unfoldable pub list_namespaces :
      Option ListOptions → Exec client.World (Result (List NamespaceInfo))
  list_namespaces opts = do
    found ← read (client.list_namespaces (list_options opts))
    pure (elim found [
      | err e ↦ err (new_internal_error "failed to list namespaces" (caused e))
      | ok namespaces ↦ ok (map (convert_namespace_to_info since) namespaces)
    ])

  -- GetNamespace
  unfoldable pub get_namespace : (name : String) → Exec client.World (Result NamespaceInfo)
  get_namespace name =
      when name == ""
      run pure (err (new_validation_error "namespace name is required" nil))
      otherwise (do
        found ← read (client.get_namespace name)
        pure (elim found [
          | err e ↦ err (new_not_found_error "namespace" name)
          | ok ns ↦ ok (convert_namespace_to_info since ns)
        ]))

  -- The pods of an answer, or an internal error
  unfoldable pub converted_pods : (message : String) → Result (List (Pod Q)) → Result (List PodInfo)
  converted_pods message (err e) = err (new_internal_error message (caused e))
  converted_pods message (ok pods) = ok (convert_pods quantity enable_resource_info since pods)

  -- The body of ListPods and ListAllPods
  unfoldable pub listed_pods :
      (namespace message : String) → ApiListOptions → Exec client.World (Result (List PodInfo))
  listed_pods namespace message opts = do
    found ← read (client.list_pods namespace opts)
    pure (converted_pods message found)

  -- ListPods
  unfoldable pub list_pods :
      (namespace : String) → Option ListOptions → Exec client.World (Result (List PodInfo))
  list_pods namespace opts =
      listed_pods namespace ("failed to list pods in namespace '" <> namespace <> "'")
        (list_options opts)

  -- ListAllPods
  unfoldable pub list_all_pods : Option ListOptions → Exec client.World (Result (List PodInfo))
  list_all_pods opts =
      listed_pods (listed_namespace opts) "failed to list all pods" (list_options opts)

  -- GetPod, after the lookup of the pod `reference`
  unfoldable pub described_pod :
      (reference : String) → Result (Pod Q) → Exec client.World (Result PodInfo)
  described_pod reference (err e) = pure (err (new_not_found_error "pod" reference))
  described_pod reference (ok pod) = do
    info ← detect_controller title client pod
    pure (ok (convert_pod quantity enable_resource_info since pod info))

  -- GetPod
  unfoldable pub get_pod : (namespace name : String) → Exec client.World (Result PodInfo)
  get_pod namespace name =
      when namespace == "" || name == ""
      run pure (err (new_validation_error "namespace and name are required" nil))
      otherwise (do
        found ← read (client.get_pod namespace name)
        described_pod (namespace <> "/" <> name) found)

  -- ListDeployments, ListStatefulSets
  unfoldable pub list_workloads :
      WorkloadKind
      → (namespace : String) → Option ListOptions
      → Exec client.World (Result (List WorkloadObject))
  list_workloads kind namespace opts = do
    found ← read (client.list_workloads kind namespace (list_options opts))
    pure (elim found [
      | err e ↦ err (
          new_internal_error
            ("failed to list " <> plural kind <> " in namespace '" <> namespace <> "'") (caused e))
      | ok objects ↦ ok objects
    ])
