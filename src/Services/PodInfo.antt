-- ===== src/Services/PodInfo.antt =====
-- internal/services/pod_converter.go: the description of a pod. The clock stands still while a list
-- is converted. `since` is the time since a creation timestamp, and the arithmetic of quantities is that
-- of k8s.io/apimachinery/pkg/api/resource.
pub mod Laws
pub mod Tests
use k8s_pod_manager_graphql.Prelude.{
  ℕ, zero, suc, String, Bool, Option, none, some, List, [], ◌∷◌, map, length, ◌==◌, ◌&&◌,
  if◌then◌else◌,
}
use k8s_pod_manager_graphql.Prelude.Int.{ℤ, pos, ◌+ℤ◌, wrap_int32}
use k8s_pod_manager_graphql.Prelude.Text.{◌<>◌, show_nat}
use k8s_pod_manager_graphql.Prelude.GoMap.{GoMap, lookup}
use k8s_pod_manager_graphql.Services.Types.{Pod, Container, PodCondition, OwnerReference}
use k8s_pod_manager_graphql.Services.Controller.{ControllerInfo}
use k8s_pod_manager_graphql.Services.Converter.{
  ContainerInfo, extract_container_info, detect_basic_controller_info,
}
use k8s_pod_manager_graphql.Services.Age.{Duration, format_duration}

-- ResourceUsageInfo
pub record ResourceUsageInfo : Type 0 where
  pub cpu : String
  pub memory : String

-- PodInfo; the conditions, nil or not, are those of the pod.
pub record PodInfo : Type 0 where
  pub name : String
  pub namespace : String
  pub phase : String
  pub pod_ip : String
  pub host_ip : String
  pub node_name : String
  pub age : String
  pub ready : String
  pub restarts : ℤ
  pub owners : List String
  pub controller_type : String
  pub containers : List ContainerInfo
  pub labels : GoMap String
  pub annotations : GoMap String
  pub created_at : ℤ
  pub conditions : List PodCondition
  pub resource_usage : Option ResourceUsageInfo

-- The type Quantity with its zero value and the methods Add, IsZero and String
pub record Quantity (Q : Type 0) : Type 0 where
  pub zero_value : Q
  pub add : Q → Q → Q
  pub is_zero : Q → Bool
  pub text : Q → String

-- The loop over the owner references of ConvertPod
unfoldable pub owner_texts : List OwnerReference → List String
owner_texts owners = map (λ (owner : OwnerReference). owner.kind <> "/" <> owner.name) owners

-- The loop over the containers of ConvertPod: the sum of the restarts, in int32, and the number of
-- those that are ready
unfoldable pub container_totals : (restarts : ℤ) (ready : ℕ) → List ContainerInfo → ℤ × ℕ
container_totals restarts ready [] = (restarts, ready)
container_totals restarts ready (container ∷ containers) =
    container_totals (wrap_int32 (restarts +ℤ container.restart_count))
      (if container.ready then suc ready else ready) containers

module _ {Q : Type 0} (quantity : Quantity Q) where
  -- The sum of the requests of one resource, from `total`
  unfoldable pub total_requests : (resource : String) → (total : Q) → List (Container Q) → Q
  total_requests resource total [] = total
  total_requests resource total (container ∷ containers) = elim container.requests [
    | none ↦ total_requests resource total containers
    | some requests ↦ elim (lookup resource requests) [
      | none ↦ total_requests resource total containers
      | some q ↦ total_requests resource (quantity.add total q) containers
    ]
  ]

  -- The text of a total, "" for zero
  unfoldable pub total_text : Q → String
  total_text total = if quantity.is_zero total then "" else quantity.text total

  -- CalculateResourceUsage
  unfoldable pub calculate_resource_usage : Pod Q → Option ResourceUsageInfo
  calculate_resource_usage pod =
      let cpu = total_text (total_requests "cpu" quantity.zero_value pod.containers) in
      let memory = total_text (total_requests "memory" quantity.zero_value pod.containers) in
      if cpu == "" && memory == "" then none else some (record { cpu = cpu; memory = memory })

  module _ (enable_resource_info : Bool) (since : ℤ → Duration) where
    -- ConvertPod
    unfoldable pub convert_pod : Pod Q → ControllerInfo → PodInfo
    convert_pod pod controller_info =
        let containers = extract_container_info quantity.text enable_resource_info pod in
        let totals = container_totals (pos 0) 0 containers in
        record {
          name = pod.name;
          namespace = pod.namespace;
          phase = pod.phase;
          pod_ip = pod.pod_ip;
          host_ip = pod.host_ip;
          node_name = pod.node_name;
          age = format_duration (since pod.creation_timestamp);
          ready = show_nat totals.1 <> "/" <> show_nat (length pod.containers);
          restarts = totals.0;
          owners = owner_texts pod.owner_references;
          controller_type = controller_info.type;
          containers = containers;
          labels = pod.labels;
          annotations = pod.annotations;
          created_at = pod.creation_timestamp;
          conditions = pod.conditions;
          resource_usage = if enable_resource_info then calculate_resource_usage pod else none;
        }

    -- ConvertPods
    unfoldable pub convert_pods : List (Pod Q) → List PodInfo
    convert_pods pods = map (λ pod. convert_pod pod (detect_basic_controller_info pod)) pods
