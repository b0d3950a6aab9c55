-- ===== src/Services/Types.antt =====
-- internal/services/types.go and interfaces.go: the data that the services exchange, and the fields
-- that the program reads of the Kubernetes API's objects. A nil map reads as an empty one, so a map
-- is nil only where the code tests for it. `Q` is the API's type of resource quantities.
use k8s_pod_manager_graphql.Prelude.{String, Bool, Option, List}
use k8s_pod_manager_graphql.Prelude.Int.{ℤ}
use k8s_pod_manager_graphql.Prelude.GoMap.{GoMap}

-- metav1.OwnerReference
pub record OwnerReference : Type 0 where
  pub kind : String
  pub name : String
  pub controller : Option Bool

-- corev1.ContainerStateWaiting, corev1.ContainerStateTerminated
pub record StateDetail : Type 0 where
  pub reason : String
  pub message : String

-- corev1.ContainerStatus with its State; `running` tells whether State.Running is set
pub record ContainerStatus : Type 0 where
  pub ready : Bool
  pub restart_count : ℤ
  pub running : Bool
  pub waiting : Option StateDetail
  pub terminated : Option StateDetail

-- corev1.Container
pub record Container (Q : Type 0) : Type 0 where
  pub name : String
  pub image : String
  pub requests : Option (GoMap Q)
  pub limits : Option (GoMap Q)

-- corev1.PodCondition
pub record PodCondition : Type 0 where
  pub kind : String
  pub status : String
  pub last_transition_time : ℤ
  pub reason : String
  pub message : String

-- corev1.Pod
pub record Pod (Q : Type 0) : Type 0 where
  pub name : String
  pub namespace : String
  pub labels : GoMap String
  pub annotations : GoMap String
  pub owner_references : List OwnerReference
  pub creation_timestamp : ℤ
  pub node_name : String
  pub containers : List (Container Q)
  pub phase : String
  pub pod_ip : String
  pub host_ip : String
  pub container_statuses : List ContainerStatus
  pub conditions : List PodCondition

-- appsv1.Deployment and appsv1.StatefulSet
pub record WorkloadObject : Type 0 where
  pub name : String
  pub namespace : String
  pub labels : GoMap String
  pub creation_timestamp : ℤ
  pub replicas : Option ℤ
  pub updated_replicas : ℤ
  pub ready_replicas : ℤ
  pub available_replicas : ℤ
  pub current_replicas : ℤ

-- corev1.Namespace
pub record Namespace : Type 0 where
  pub name : String
  pub labels : GoMap String
  pub annotations : GoMap String
  pub creation_timestamp : ℤ
  pub phase : String

-- metav1.ListOptions
pub record ApiListOptions : Type 0 where
  pub label_selector : String
  pub field_selector : String
  pub limit : ℤ
  pub continue : String
  pub resource_version : String

-- PodOperationAudit
pub record PodOperationAudit : Type 0 where
  pub pod_name : String
  pub namespace : String
  pub operation : String
  pub controller : String
  pub controller_name : String
  pub executed_by : String
  pub status : String
  pub message : String
  pub details : Option (GoMap String)

-- ScaleOperationAudit
pub record ScaleOperationAudit : Type 0 where
  pub resource_type : String
  pub resource_name : String
  pub namespace : String
  pub previous_replicas : ℤ
  pub new_replicas : ℤ
  pub executed_by : String
  pub status : String
  pub reason : String

-- ScaleResult
pub record ScaleResult : Type 0 where
  pub success : Bool
  pub message : String
  pub resource_type : String
  pub resource_name : String
  pub namespace : String
  pub previous_replicas : ℤ
  pub new_replicas : ℤ
  pub action : String

-- ServiceOptions: the fields that the services read
pub record ServiceOptions : Type 0 where
  pub enable_metrics : Bool
  pub enable_audit : Bool
