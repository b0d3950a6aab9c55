-- ===== src/Services/Pods/Tests.antt =====
-- The pod service over a small cluster with one pod of a DaemonSet.
use k8s_pod_manager_graphql.Prelude.{
  ℕ, suc, String, ◌≡◌, refl, true, false, none, some, List, [], ◌∷◌, ◌++◌, arith, eq_iff,
}
use k8s_pod_manager_graphql.Prelude.Int.{pos}
use k8s_pod_manager_graphql.Services.Errors.{GoError, external, error_text}
use k8s_pod_manager_graphql.Services.Types.{Pod, Container, OwnerReference, ServiceOptions}
use k8s_pod_manager_graphql.Services.Client.{ok, err, Client, deleted_pod, State}
use k8s_pod_manager_graphql.Services.Controller.{ControllerInfo}
use k8s_pod_manager_graphql.Services.Restart.Laws.{planned, detected}
use k8s_pod_manager_graphql.Services.Pods.{delete_audit, Received, event, closed}
use k8s_pod_manager_graphql.Services.Pods.Laws.{
  IsGiven, is_none, deleted, trace-delete_pod, restart_audits, IsReturned, orchestrated,
  restarted_pod, trace-restart_audited,
}
use k8s_pod_manager_graphql.Services.Pods.Streams.{
  watched, AreEvents, pods_before_end, process_watch_events_lem,
}

abbrev owner : OwnerReference
owner = record { kind = "DaemonSet"; name = "agent"; controller = some true }

abbrev agent : Pod ℕ
agent = record {
  name = "agent-1";
  namespace = "prod";
  labels = [];
  annotations = [];
  owner_references = owner ∷ [];
  creation_timestamp = pos 0;
  node_name = "";
  containers = [];
  phase = "Running";
  pod_ip = "";
  host_ip = "";
  container_statuses = [];
  conditions = [];
}

abbrev refused : GoError
refused = external "Forbidden" "forbidden"

-- The world counts the calls; deletions are forbidden.
abbrev cluster : Client ℕ
cluster = record {
  World = ℕ;
  get_pod = λ namespace name w. (ok agent, suc w);
  delete_pod = λ namespace name w. (err refused, suc w);
  get_replica_set = λ namespace name w. (ok [], suc w);
  get_job = λ namespace name w. (ok [], suc w);
  get_workload = λ kind namespace name w. (err refused, suc w);
  list_pods = λ namespace opts w. (ok (agent ∷ []), suc w);
  list_workloads = λ kind namespace opts w. (ok ([]), suc w);
  list_namespaces = λ opts w. (ok [], suc w);
  get_namespace = λ name w. (err refused, suc w);
  update_workload = λ kind namespace object w. (ok object, suc w);
  patch_workload = λ kind namespace name patch w. (ok tt, suc w);
}

abbrev start : State ℕ
start = record { world = 0; trace = [] }

abbrev options : ServiceOptions
options = record { enable_metrics = true; enable_audit = true }

abbrev same : String → String
same t = t

agent-IsGiven : IsGiven "prod" "agent-1" "ann"
agent-IsGiven = record {
  namespace_given = ground (arith, eq_iff "prod" "");
  name_given = ground (arith, eq_iff "agent-1" "");
  user_given = ground (arith, eq_iff "ann" "");
}

trace-delete_pod_example :
    ((deleted cluster options "prod" "agent-1" "ann" start).1.trace
      ≡ delete_audit cluster options "prod" "agent-1" "ann" "failed" "forbidden"
        ∷ deleted_pod "prod" "agent-1"
        ∷ [])
    × (is_none (deleted cluster options "prod" "agent-1" "ann" start).0 ≡ false)
unfolding error_text
trace-delete_pod_example =
    trace-delete_pod cluster options "prod" "agent-1" "ann" start refl agent-IsGiven

trace-restart_audited_example :
    ((restarted_pod cluster options "prod" "agent-1" "ann" start same "now").1.trace
      ≡ restart_audits cluster options "prod" "agent-1" "ann"
          (orchestrated cluster options "prod" "agent-1" "ann" start same "now").0
        ++ (planned "now" "prod" "agent-1"
              (detected cluster "now" same "prod" "agent-1" start agent)
            ++ start.trace))
    × IsReturned
        (restarted_pod cluster options "prod" "agent-1" "ann" start same "now").0
        (orchestrated cluster options "prod" "agent-1" "ann" start same "now").0.1
trace-restart_audited_example =
    trace-restart_audited cluster options "prod" "agent-1" "ann" start refl agent-IsGiven same "now"
      agent refl

abbrev convert : Pod ℕ → ControllerInfo → String
convert pod info = info.name

abbrev three : List (Received ℕ)
three =
    event "ADDED" (some agent) ∷ event "BOOKMARK" none ∷ event "DELETED" (some agent) ∷ closed ∷ []

process_watch_events_lem_example :
    AreEvents cluster same convert refused
      (watched cluster same convert refused three start).0.0
      (pods_before_end three)
      start
    × ((watched cluster same convert refused three start).1.trace ≡ start.trace)
process_watch_events_lem_example = process_watch_events_lem cluster same convert refused three start

abbrev web : Container ℕ
web = record { name = "web"; image = "nginx"; requests = none; limits = none }
