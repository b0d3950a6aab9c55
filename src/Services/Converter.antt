-- ===== src/Services/Converter.antt =====
-- internal/services/pod_converter.go: the containers of a pod, and the controller that the listing
-- shows without asking the API.
pub mod Laws
pub mod Tests
use k8s_pod_manager_graphql.Prelude.{
  ℕ, suc, String, Bool, false, Option, none, some, List, [], ◌∷◌, get_elem?, ◌==◌, if◌then◌else◌,
}
use k8s_pod_manager_graphql.Prelude.Int.{ℤ, pos}
use k8s_pod_manager_graphql.Prelude.Text.{◌<>◌}
use k8s_pod_manager_graphql.Prelude.GoMap.{GoMap, lookup}
use k8s_pod_manager_graphql.Services.Types.{Pod, Container, ContainerStatus, StateDetail}
use k8s_pod_manager_graphql.Services.Controller.{
  ControllerInfo, controller_standalone, controlling, job_label,
}

-- ResourceList
pub record ResourceList : Type 0 where
  pub cpu : String
  pub memory : String

-- ContainerResources
pub record ContainerResources : Type 0 where
  pub requests : ResourceList
  pub limits : ResourceList

-- ContainerInfo
pub record ContainerInfo : Type 0 where
  pub name : String
  pub image : String
  pub ready : Bool
  pub restart_count : ℤ
  pub state : String
  pub resources : Option ContainerResources

-- The reason of a state, or Unknown
unfoldable pub reason_or_unknown : StateDetail → String
reason_or_unknown detail = if detail.reason == "" then "Unknown" else detail.reason

-- getContainerState
unfoldable pub get_container_state : ContainerStatus → String
get_container_state status = if status.running then "Running" else elim status.waiting [
  | some waiting ↦ "Waiting: " <> reason_or_unknown waiting
  | none ↦ elim status.terminated [
    | some terminated ↦ "Terminated: " <> reason_or_unknown terminated
    | none ↦ "Unknown"
  ]
]

module _ {Q : Type 0} (quantity_text : Q → String) where
  -- The text of a quantity of a map, "" where it has none; `quantity_text` is Quantity.String.
  unfoldable pub quantity_of : (resource : String) → GoMap Q → String
  quantity_of resource m = elim (lookup resource m) [ some q ↦ quantity_text q | none ↦ "" ]

  -- The resources of a map, which may be nil
  unfoldable pub resource_list : Option (GoMap Q) → ResourceList
  resource_list none = record { cpu = ""; memory = "" }
  resource_list (some m) = record { cpu = quantity_of "cpu" m; memory = quantity_of "memory" m }

  -- extractContainerResources
  unfoldable pub extract_container_resources : Container Q → Option ContainerResources
  extract_container_resources container = elim container.requests [
    | none ↦ elim container.limits [
      | none ↦ none
      | some m ↦ some (record { requests = resource_list none; limits = resource_list (some m) })
    ]
    | some m ↦
        some (record { requests = resource_list (some m); limits = resource_list container.limits })
  ]

  module _ (enable_resource_info : Bool) where
    -- The body of the loop of ExtractContainerInfo, for a container and its status
    unfoldable pub container_info : Container Q → Option ContainerStatus → ContainerInfo
    container_info container none = record {
      name = container.name;
      image = container.image;
      ready = false;
      restart_count = pos 0;
      state = "Unknown";
      resources = if enable_resource_info then extract_container_resources container else none;
    }
    container_info container (some status) = record {
      name = container.name;
      image = container.image;
      ready = status.ready;
      restart_count = status.restart_count;
      state = get_container_state status;
      resources = if enable_resource_info then extract_container_resources container else none;
    }

    -- The loop, from index `i`
    unfoldable pub container_infos :
        List ContainerStatus → (i : ℕ) → List (Container Q) → List ContainerInfo
    container_infos statuses i [] = []
    container_infos statuses i (container ∷ containers) =
        container_info container (get_elem? statuses i)
        ∷ container_infos statuses (suc i) containers

    -- ExtractContainerInfo
    unfoldable pub extract_container_info : Pod Q → List ContainerInfo
    extract_container_info pod = container_infos pod.container_statuses 0 pod.containers

-- detectBasicControllerInfo
unfoldable pub detect_basic_controller_info : {Q : Type 0} → Pod Q → ControllerInfo
detect_basic_controller_info pod = elim (controlling pod.owner_references) [
  | some owner ↦ record { type = owner.kind; name = owner.name; kind = owner.kind }
  | none ↦ job_label pod (record { type = controller_standalone; name = ""; kind = "" })
]
