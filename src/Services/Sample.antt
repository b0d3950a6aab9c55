-- ===== src/Services/Sample.antt =====
-- Data for tests: a cluster with one pod of a DaemonSet, whose calls count themselves.
use k8s_pod_manager_graphql.Prelude.{ℕ, suc, String, true, false, eqb, none, some, [], ◌∷◌, ◌+◌}
use k8s_pod_manager_graphql.Prelude.Int.{pos}
use k8s_pod_manager_graphql.Prelude.Text.{show_nat}
use k8s_pod_manager_graphql.Services.Errors.{GoError, external}
use k8s_pod_manager_graphql.Services.Types.{Pod, Container, ContainerStatus, OwnerReference}
use k8s_pod_manager_graphql.Services.Client.{ok, err, Client, State}
use k8s_pod_manager_graphql.Services.Age.{Duration}
use k8s_pod_manager_graphql.Services.PodInfo.{Quantity}

abbrev owner : OwnerReference
owner = record { kind = "DaemonSet"; name = "agent"; controller = some true }

abbrev container : String → Container ℕ
container name = record {
  name = name;
  image = "nginx";
  requests = some (("cpu", 2) ∷ []);
  limits = none;
}

abbrev started : ContainerStatus
started = record {
  ready = true;
  restart_count = pos 1;
  running = true;
  waiting = none;
  terminated = none;
}

abbrev pub agent : Pod ℕ
agent = record {
  name = "agent-1";
  namespace = "prod";
  labels = ("app", "agent") ∷ ("tier", "node") ∷ [];
  annotations = [];
  owner_references = owner ∷ [];
  creation_timestamp = pos 0;
  node_name = "node-1";
  containers = container "web" ∷ container "proxy" ∷ [];
  phase = "Running";
  pod_ip = "10.0.0.7";
  host_ip = "";
  container_statuses = started ∷ [];
  conditions = [];
}

abbrev missing : GoError
missing = external "NotFound" "not found"

abbrev pub cluster : Client ℕ
cluster = record {
  World = ℕ;
  get_pod = λ namespace name w. (ok agent, suc w);
  delete_pod = λ namespace name w. (ok tt, suc w);
  get_replica_set = λ namespace name w. (err missing, suc w);
  get_job = λ namespace name w. (err missing, suc w);
  get_workload = λ kind namespace name w. (err missing, suc w);
  list_pods = λ namespace opts w. (ok (agent ∷ []), suc w);
  list_workloads = λ kind namespace opts w. (ok ([]), suc w);
  list_namespaces = λ opts w. (ok [], suc w);
  get_namespace = λ name w. (err missing, suc w);
  update_workload = λ kind namespace object w. (ok object, suc w);
  patch_workload = λ kind namespace name patch w. (ok tt, suc w);
}

-- Quantities are numbers.
abbrev pub numbers : Quantity ℕ
numbers = record { zero_value = 0; add = ◌+◌; is_zero = λ n. eqb n 0; text = show_nat }

-- Every object is a day, five minutes and seven seconds old.
abbrev pub age : Duration
age = record {
  is_negative = false;
  total_days = 1;
  total_hours = 24;
  total_minutes = 1445;
  total_seconds = 86707;
}

abbrev pub same_text : String → String
same_text t = t

abbrev pub start : State ℕ
start = record { world = 0; trace = [] }
