-- ===== src/Graph/Converter.antt =====
-- graph/converters.go: from the data of the services to that of the GraphQL schema, which
-- graph/model/models_gen.go declares. A conversion from int32 to int keeps the number.
pub mod Laws
pub mod Tests
use k8s_pod_manager_graphql.Prelude.{
  ℕ, zero, suc, String, Bool, Option, none, some, List, [], ◌∷◌, map, length, ◌==◌, not,
  if◌then◌else◌,
}
use k8s_pod_manager_graphql.Prelude.Int.{ℤ, pos}
use k8s_pod_manager_graphql.Prelude.GoMap.{GoMap, lookup}
use k8s_pod_manager_graphql.Services.Types.{WorkloadObject}
use k8s_pod_manager_graphql.Services.Converter as Services
use k8s_pod_manager_graphql.Services.PodInfo as Info
use k8s_pod_manager_graphql.Services.Lists as Lists
use k8s_pod_manager_graphql.Services.Pods as Pods
use k8s_pod_manager_graphql.Services.Streaming as Streaming

-- KeyValue
pub record KeyValue : Type 0 where
  pub key : String
  pub value : String

-- ContainerInfo
pub record ContainerInfo : Type 0 where
  pub name : String
  pub image : String
  pub ready : Bool
  pub restart_count : ℤ
  pub state : String

-- PodInfo
pub record PodInfo : Type 0 where
  pub name : String
  pub namespace : String
  pub phase : String
  pub pod_ip : Option String
  pub host_ip : Option String
  pub node_name : Option String
  pub age : String
  pub ready : String
  pub restarts : ℤ
  pub owners : List String
  pub controller_type : String
  pub containers : List ContainerInfo
  pub labels : List KeyValue

-- NamespaceInfo
pub record NamespaceInfo : Type 0 where
  pub name : String
  pub status : String
  pub age : String
  pub labels : List KeyValue
  pub annotations : List KeyValue

-- DeploymentInfo
pub record DeploymentInfo : Type 0 where
  pub name : String
  pub namespace : String
  pub replicas : ℤ
  pub updated_replicas : ℤ
  pub ready_replicas : ℤ
  pub available_replicas : ℤ
  pub labels : List KeyValue
  pub created_at : ℤ

-- StatefulSetInfo
pub record StatefulSetInfo : Type 0 where
  pub name : String
  pub namespace : String
  pub replicas : ℤ
  pub ready_replicas : ℤ
  pub current_replicas : ℤ
  pub updated_replicas : ℤ
  pub labels : List KeyValue
  pub created_at : ℤ

-- PodWatchEvent
pub record PodWatchEvent : Type 0 where
  pub type : String
  pub pod : PodInfo
  pub reason : Option String

-- PodLogLine without its time
pub record PodLogLine : Type 0 where
  pub line : String
  pub container : Option String

-- MapToKeyValuePairs
unfoldable pub map_to_key_value_pairs : GoMap String → List KeyValue
map_to_key_value_pairs m =
    map (λ (entry : String × String). record { key = entry.0; value = entry.1 }) m

-- convertContainerInfoList
unfoldable pub convert_container_info_list : List Services.ContainerInfo → List ContainerInfo
convert_container_info_list containers =
    map
      (λ (container : Services.ContainerInfo). record {
        name = container.name;
        image = container.image;
        ready = container.ready;
        restart_count = container.restart_count;
        state = container.state;
      })
      containers

-- stringPtr
unfoldable pub string_ptr : String → Option String
string_ptr s = if s == "" then none else some s

-- ConvertPodInfo
unfoldable pub convert_pod_info : Info.PodInfo → PodInfo
convert_pod_info pod = record {
  name = pod.name;
  namespace = pod.namespace;
  phase = pod.phase;
  pod_ip = string_ptr pod.pod_ip;
  host_ip = string_ptr pod.host_ip;
  node_name = string_ptr pod.node_name;
  age = pod.age;
  ready = pod.ready;
  restarts = pod.restarts;
  owners = pod.owners;
  controller_type = pod.controller_type;
  containers = convert_container_info_list pod.containers;
  labels = map_to_key_value_pairs pod.labels;
}

-- ConvertNamespaceInfo
unfoldable pub convert_namespace_info : Lists.NamespaceInfo → NamespaceInfo
convert_namespace_info ns = record {
  name = ns.name;
  status = ns.status;
  age = ns.age;
  labels = map_to_key_value_pairs ns.labels;
  annotations = map_to_key_value_pairs ns.annotations;
}

-- The number of replicas of a workload, 1 for nil
unfoldable pub replicas_or_one : Option ℤ → ℤ
replicas_or_one none = pos 1
replicas_or_one (some n) = n

-- ConvertDeploymentInfo
unfoldable pub convert_deployment_info : WorkloadObject → DeploymentInfo
convert_deployment_info deployment = record {
  name = deployment.name;
  namespace = deployment.namespace;
  replicas = replicas_or_one deployment.replicas;
  updated_replicas = deployment.updated_replicas;
  ready_replicas = deployment.ready_replicas;
  available_replicas = deployment.available_replicas;
  labels = map_to_key_value_pairs deployment.labels;
  created_at = deployment.creation_timestamp;
}

-- ConvertStatefulSetInfo
unfoldable pub convert_stateful_set_info : WorkloadObject → StatefulSetInfo
convert_stateful_set_info stateful_set = record {
  name = stateful_set.name;
  namespace = stateful_set.namespace;
  replicas = replicas_or_one stateful_set.replicas;
  ready_replicas = stateful_set.ready_replicas;
  current_replicas = stateful_set.current_replicas;
  updated_replicas = stateful_set.updated_replicas;
  labels = map_to_key_value_pairs stateful_set.labels;
  created_at = stateful_set.creation_timestamp;
}

-- ConvertPodWatchEvent
unfoldable pub convert_pod_watch_event : Pods.PodWatchEvent Info.PodInfo → PodWatchEvent
convert_pod_watch_event event = record {
  type = event.type;
  pod = convert_pod_info event.pod;
  reason = if not (event.reason == "") then some event.reason else none;
}

-- ConvertPodLogLine
unfoldable pub convert_pod_log_line : Streaming.PodLogLine → PodLogLine
convert_pod_log_line log = record { line = log.line; container = string_ptr log.container }
