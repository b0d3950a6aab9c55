-- ===== src/Services/Converter/Tests.antt =====
-- A pod of two containers, of which one has a status.
use k8s_pod_manager_graphql.Prelude.{ℕ, suc, String, true, none, some, [], ◌∷◌}
use k8s_pod_manager_graphql.Prelude.Int.{pos}
use k8s_pod_manager_graphql.Services.Errors.{GoError, external}
use k8s_pod_manager_graphql.Services.Types.{Pod, Container, ContainerStatus, OwnerReference}
use k8s_pod_manager_graphql.Services.Client.{ok, err, Client, State}

abbrev owner : OwnerReference
owner = record { kind = "DaemonSet"; name = "agent"; controller = some true }

abbrev container : String → Container ℕ
container name = record { name = name; image = "nginx"; requests = none; limits = none }

abbrev started : ContainerStatus
started = record {
  ready = true;
  restart_count = pos 1;
  running = true;
  waiting = none;
  terminated = none;
}

abbrev agent : Pod ℕ
agent = record {
  name = "agent-1";
  namespace = "prod";
  labels = [];
  annotations = [];
  owner_references = owner ∷ [];
  creation_timestamp = pos 0;
  node_name = "";
  containers = container "web" ∷ container "proxy" ∷ [];
  phase = "Running";
  pod_ip = "";
  host_ip = "";
  container_statuses = started ∷ [];
  conditions = [];
}

abbrev missing : GoError
missing = external "NotFound" "not found"

abbrev cluster : Client ℕ
cluster = record {
  World = ℕ;
  get_pod = λ namespace name w. (ok agent, suc w);
  delete_pod = λ namespace name w. (ok tt, suc w);
  get_replica_set = λ namespace name w. (err missing, suc w);
  get_job = λ namespace name w. (err missing, suc w);
  get_workload = λ kind namespace name w. (err missing, suc w);
  list_pods = λ namespace opts w. (ok (agent ∷ []), suc w);
  list_workloads = λ kind namespace opts w. (ok ([]), suc w);
  list_namespaces = λ opts w. (ok [], suc w);
  get_namespace = λ name w. (err missing, suc w);
  update_workload = λ kind namespace object w. (ok object, suc w);
  patch_workload = λ kind namespace name patch w. (ok tt, suc w);
}

abbrev no_text : ℕ → String
no_text n = ""

abbrev same : String → String
same t = t

abbrev start : State ℕ
start = record { world = 0; trace = [] }
