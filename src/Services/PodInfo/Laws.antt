-- ===== src/Services/PodInfo/Laws.antt =====
-- The totals that the description of a pod shows.
use k8s_pod_manager_graphql.Prelude.{
  ℕ, suc, ◌+◌, ◌≤◌, ◌≡◌, refl, ap, sym, ◌∙◌, Bool, List, [], ◌∷◌, length, if◌then◌else◌, arith,
}
use k8s_pod_manager_graphql.Prelude.Int.{
  ℤ, pos, ◌+ℤ◌, wrap_int32, wrap_int32-+ℤ, +ℤ_assoc, +ℤ-zero, zero-+ℤ, wrap_int32_id,
}
use k8s_pod_manager_graphql.Prelude.Text.{◌<>◌, show_nat}
use k8s_pod_manager_graphql.Services.Types.{Pod, Container, ContainerStatus}
use k8s_pod_manager_graphql.Services.Controller.{ControllerInfo}
use k8s_pod_manager_graphql.Services.Converter.{
  ContainerInfo, container_infos, extract_container_info,
}
use k8s_pod_manager_graphql.Services.Age.{Duration}
use k8s_pod_manager_graphql.Services.PodInfo.{Quantity, container_totals, convert_pod}

-- The restarts of all containers, as integers
abbrev pub all_restarts : List ContainerInfo → ℤ
all_restarts [] = pos 0
all_restarts (container ∷ containers) = container.restart_count +ℤ all_restarts containers

-- The number of containers that are ready
abbrev pub ready_count : List ContainerInfo → ℕ
ready_count [] = 0
ready_count (container ∷ containers) =
    if container.ready then suc (ready_count containers) else ready_count containers

restarts-container_totals :
    (containers : List ContainerInfo) (restarts : ℤ) (ready : ℕ)
    → (container_totals (wrap_int32 restarts) ready containers).0
      ≡ wrap_int32 (restarts +ℤ all_restarts containers)
unfolding container_totals
restarts-container_totals [] restarts ready = ap wrap_int32 (sym (+ℤ-zero restarts))
restarts-container_totals (container ∷ containers) restarts ready =
    let ready' = if container.ready then suc ready else ready in
    ap (λ r. (container_totals r ready' containers).0)
      (wrap_int32-+ℤ restarts container.restart_count)
    ∙ restarts-container_totals containers (restarts +ℤ container.restart_count) ready'
    ∙ ap wrap_int32 (+ℤ_assoc restarts container.restart_count (all_restarts containers))

restarts_from_zero :
    (containers : List ContainerInfo)
    → (container_totals (pos 0) 0 containers).0 ≡ wrap_int32 (all_restarts containers)
restarts_from_zero containers =
    ap (λ r. (container_totals r 0 containers).0) (sym (wrap_int32_id (pos 0) (omega arith)))
    ∙ restarts-container_totals containers (pos 0) 0
    ∙ ap wrap_int32 (zero-+ℤ (all_restarts containers))

ready-container_totals :
    (containers : List ContainerInfo) (restarts : ℤ) (ready : ℕ)
    → (container_totals restarts ready containers).1 ≡ ready + ready_count containers
unfolding container_totals
ready-container_totals [] restarts ready = omega arith
ready-container_totals (container ∷ containers) restarts ready = ground (
  arith,
  ready-container_totals containers (wrap_int32 (restarts +ℤ container.restart_count))
      (if container.ready then suc ready else ready),
)

ready_count-le : (containers : List ContainerInfo) → ready_count containers ≤ length containers
ready_count-le [] = omega arith
ready_count-le (container ∷ containers) = ground (arith, ready_count-le containers)

module _ {Q : Type 0} (quantity : Quantity Q) (enable : Bool) (since : ℤ → Duration) where
  length-container_infos :
      (statuses : List ContainerStatus) (i : ℕ) (containers : List (Container Q))
      → length (container_infos quantity.text enable statuses i containers) ≡ length containers
  unfolding container_infos
  length-container_infos statuses i [] = refl
  length-container_infos statuses i (container ∷ containers) =
      ap suc (length-container_infos statuses (suc i) containers)

  -- The description of a pod shows the restarts of its containers added up, in the arithmetic of int32,
  -- and the number of those that are ready beside the number of all, which is no smaller.
  pub convert_pod_totals :
      (pod : Pod Q) (info : ControllerInfo)
      → ((convert_pod quantity enable since pod info).restarts
          ≡ wrap_int32 (all_restarts (extract_container_info quantity.text enable pod)))
        × ((convert_pod quantity enable since pod info).ready
            ≡ show_nat (ready_count (extract_container_info quantity.text enable pod))
              <> "/"
              <> show_nat (length pod.containers))
        × (ready_count (extract_container_info quantity.text enable pod) ≤ length pod.containers)
  unfolding convert_pod extract_container_info
  convert_pod_totals pod info =
      let containers = extract_container_info quantity.text enable pod in
      (
        restarts_from_zero containers,
        ap (λ n. show_nat n <> "/" <> show_nat (length pod.containers))
            (ready-container_totals containers (pos 0) 0 ∙ omega arith),
        omega (
          arith,
          ready_count-le containers,
          length-container_infos pod.container_statuses 0 pod.containers,
        ),
      )
