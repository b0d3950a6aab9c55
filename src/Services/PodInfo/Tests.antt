-- ===== src/Services/PodInfo/Tests.antt =====
-- The description of a pod of two containers, of which one has a status.
use k8s_pod_manager_graphql.Prelude.{◌≤◌, ◌≡◌, refl, true, some, length}
use k8s_pod_manager_graphql.Prelude.Int.{wrap_int32}
use k8s_pod_manager_graphql.Prelude.Text.{◌<>◌, show_nat}
use k8s_pod_manager_graphql.Prelude.GoMap.{lookup}
use k8s_pod_manager_graphql.Services.Controller.{ControllerInfo}
use k8s_pod_manager_graphql.Services.Converter.{extract_container_info}
use k8s_pod_manager_graphql.Services.PodInfo.{
  total_requests, total_text, calculate_resource_usage, convert_pod,
}
use k8s_pod_manager_graphql.Services.PodInfo.Laws.{all_restarts, ready_count, convert_pod_totals}
use k8s_pod_manager_graphql.Services.Sample.{agent, numbers, age}

abbrev daemon_set : ControllerInfo
daemon_set = record { type = "DaemonSet"; name = "agent"; kind = "DaemonSet" }

usage : calculate_resource_usage numbers agent ≡ some (record { cpu = "4"; memory = "" })
unfolding calculate_resource_usage total_requests total_text lookup show_nat
usage = refl

convert_pod_totals_example :
    ((convert_pod numbers true (λ created. age) agent daemon_set).restarts
      ≡ wrap_int32 (all_restarts (extract_container_info numbers.text true agent)))
    × ((convert_pod numbers true (λ created. age) agent daemon_set).ready
        ≡ show_nat (ready_count (extract_container_info numbers.text true agent))
          <> "/"
          <> show_nat (length agent.containers))
    × (ready_count (extract_container_info numbers.text true agent) ≤ length agent.containers)
convert_pod_totals_example = convert_pod_totals numbers true (λ created. age) agent daemon_set
