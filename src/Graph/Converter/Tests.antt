-- ===== src/Graph/Converter/Tests.antt =====
-- A pod with two labels as the schema shows it.
use k8s_pod_manager_graphql.Prelude.{◌≡◌, true, [], map, arith, eq_iff}
use k8s_pod_manager_graphql.Services.Controller.{ControllerInfo}
use k8s_pod_manager_graphql.Services.PodInfo as Info
use k8s_pod_manager_graphql.Services.Sample.{agent, numbers, age}
use k8s_pod_manager_graphql.Graph.Converter.{convert_pod_info}
use k8s_pod_manager_graphql.Graph.Converter.Laws.{
  text_of, AreSame, build_map, restored, without_resources, convert_pod_info-restored,
}

abbrev daemon_set : ControllerInfo
daemon_set = record { type = "DaemonSet"; name = "agent"; kind = "DaemonSet" }

abbrev described : Info.PodInfo
unfolding Info.convert_pod
described = Info.convert_pod numbers true (λ created. age) agent daemon_set

convert_pod_info-restored_example :
    (text_of (convert_pod_info described).pod_ip ≡ described.pod_ip)
    × (text_of (convert_pod_info described).host_ip ≡ described.host_ip)
    × (text_of (convert_pod_info described).node_name ≡ described.node_name)
    × AreSame (build_map [] (convert_pod_info described).labels) described.labels
    × (map restored (convert_pod_info described).containers
        ≡ map without_resources described.containers)
unfolding Info.convert_pod
convert_pod_info-restored_example =
    convert_pod_info-restored described ((ground (arith, eq_iff "tier" "app"), tt), (tt, tt))
