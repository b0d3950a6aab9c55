-- ===== src/Services/Converter/Laws.antt =====
-- What the listing shows of containers and controllers.
use k8s_pod_manager_graphql.Prelude.{
  ℕ, zero, suc, ◌+◌, String, ◌≡◌, refl, ◌≢◌, ◌∙◌, ap, Bool, false, Option, none, some, List, [],
  ◌∷◌, get_elem?, arith, ◌==◌, eq_iff,
}
use k8s_pod_manager_graphql.Services.Types.{Pod, Container, ContainerStatus, OwnerReference}
use k8s_pod_manager_graphql.Services.Client.{Client, State}
use k8s_pod_manager_graphql.Services.Controller.{controlling, detect_controller, detect_owned}
use k8s_pod_manager_graphql.Services.Converter.{
  ContainerInfo, container_info, container_infos, extract_container_info,
  detect_basic_controller_info,
}

-- The value for an entry that is there
abbrev pub at : {A B : Type 0} → (A → B) → Option A → Option B
at f none = none
at f (some a) = some (f a)

module _ {Q : Type 0} (quantity_text : Q → String) (enable_resource_info : Bool) where
  -- The entry of the container at `i`, with the status at `j`
  abbrev from_index : List ContainerStatus → List (Container Q) → (i j : ℕ) → Option ContainerInfo
  from_index statuses containers i j =
      at (λ c. container_info quantity_text enable_resource_info c (get_elem? statuses j))
        (get_elem? containers i)

  get_elem?-container_infos :
      (statuses : List ContainerStatus) (k : ℕ) (containers : List (Container Q)) (i : ℕ)
      → get_elem? (container_infos quantity_text enable_resource_info statuses k containers) i
        ≡ at
            (λ c. container_info quantity_text enable_resource_info c (get_elem? statuses (k + i)))
            (get_elem? containers i)
  unfolding container_infos
  get_elem?-container_infos statuses k [] i = refl
  get_elem?-container_infos statuses k (c ∷ cs) zero =
      ap (λ j. some (container_info quantity_text enable_resource_info c (get_elem? statuses j)))
        (omega arith)
  get_elem?-container_infos statuses k (c ∷ cs) (suc i) =
      get_elem?-container_infos statuses (suc k) cs i ∙ ap (from_index statuses cs i) (omega arith)

  -- The list has one entry for each container of the pod, in the pod's order, and each entry joins
  -- the container to the status with its own index, or to none where the list of statuses is shorter.
  pub get_elem?-extract_container_info :
      (pod : Pod Q) (i : ℕ)
      → get_elem? (extract_container_info quantity_text enable_resource_info pod) i
        ≡ at
            (λ c.
              container_info quantity_text enable_resource_info c
                (get_elem? pod.container_statuses i))
            (get_elem? pod.containers i)
  unfolding extract_container_info
  get_elem?-extract_container_info pod i =
      get_elem?-container_infos pod.container_statuses 0 pod.containers i
      ∙ ap (from_index pod.container_statuses pod.containers i) (omega arith)

is_eq_of_ne : (a b : String) → a ≢ b → (a == b) ≡ false
is_eq_of_ne a b h = ground (arith, eq_iff a b)

-- For a pod whose controlling owner is neither a ReplicaSet nor a Job, the listing, which makes no
-- call of the API, shows the same controller as a lookup of the pod.
pub detect_basic_controller_info_lem :
    {Q : Type 0} (client : Client Q) (title : String → String) (pod : Pod Q)
    (owner : OwnerReference) (s : State client.World)
    → controlling pod.owner_references ≡ some owner
    → owner.kind ≢ "ReplicaSet"
    → owner.kind ≢ "Job"
    → detect_basic_controller_info pod ≡ (detect_controller title client pod s).0
unfolding detect_owned detect_basic_controller_info detect_controller
detect_basic_controller_info_lem client title pod owner s owned not_replica_set not_job = rw (
  owned,
  detect_basic_controller_info,
  detect_controller,
  is_eq_of_ne owner.kind "ReplicaSet" not_replica_set,
  is_eq_of_ne owner.kind "Job" not_job,
)
