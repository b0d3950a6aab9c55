-- ===== src/Services/Tests.antt =====
-- The services over a small cluster: one pod of a Job, one of a DaemonSet, and one Deployment.
use k8s_pod_manager_graphql.Prelude.{
  ℕ, suc, String, ◌≡◌, refl, true, Option, some, [], ◌∷◌, ◌++◌, ◌==◌, arith, eq_iff, if◌then◌else◌,
  inl,
}
use k8s_pod_manager_graphql.Prelude.Int.{ℤ, pos}
use k8s_pod_manager_graphql.Services.Errors.{GoError, external}
use k8s_pod_manager_graphql.Services.Types.{Pod, OwnerReference, WorkloadObject, ServiceOptions}
use k8s_pod_manager_graphql.Services.Client.{ok, err, Client, deployment, updated, State}
use k8s_pod_manager_graphql.Services.Controller.{controlling, is_controller}
use k8s_pod_manager_graphql.Services.Restart.Laws.{
  planned, IsRefused, restarted, detected, trace-restart_pod, restart_pod_job,
}
use k8s_pod_manager_graphql.Services.Workload.{scale_audit, replicas_or_zero}
use k8s_pod_manager_graphql.Services.Workload.Laws.{IsAccepted, scaled, trace-scale_changed}

abbrev job_owner : OwnerReference
job_owner = record { kind = "Job"; name = "import"; controller = some true }

abbrev daemon_owner : OwnerReference
daemon_owner = record { kind = "DaemonSet"; name = "agent"; controller = some true }

abbrev pod_of : String → OwnerReference → Pod ℕ
pod_of name owner = record {
  name = name;
  namespace = "prod";
  labels = [];
  annotations = [];
  owner_references = owner ∷ [];
  creation_timestamp = pos 0;
  node_name = "";
  containers = [];
  phase = "Running";
  pod_ip = "";
  host_ip = "";
  container_statuses = [];
  conditions = [];
}

abbrev web : Option ℤ → WorkloadObject
web replicas = record {
  name = "web";
  namespace = "prod";
  labels = [];
  creation_timestamp = pos 0;
  replicas = replicas;
  updated_replicas = pos 0;
  ready_replicas = pos 0;
  available_replicas = pos 0;
  current_replicas = pos 0;
}

abbrev missing : GoError
missing = external "NotFound" "not found"

-- The world counts the calls.
abbrev pub cluster : Client ℕ
cluster = record {
  World = ℕ;
  get_pod = λ namespace name w.
      (ok (if name == "import-1" then pod_of name job_owner else pod_of name daemon_owner), suc w);
  delete_pod = λ namespace name w. (ok tt, suc w);
  get_replica_set = λ namespace name w. (err missing, suc w);
  get_job = λ namespace name w. (ok [], suc w);
  get_workload = λ kind namespace name w. (ok (web (some (pos 2))), suc w);
  list_pods = λ namespace opts w. (ok (pod_of "agent-1" daemon_owner ∷ []), suc w);
  list_workloads = λ kind namespace opts w. (ok (web (some (pos 2)) ∷ []), suc w);
  list_namespaces = λ opts w. (ok [], suc w);
  get_namespace = λ name w. (err missing, suc w);
  update_workload = λ kind namespace object w. (ok object, suc w);
  patch_workload = λ kind namespace name patch w. (ok tt, suc w);
}

abbrev start : State ℕ
start = record { world = 0; trace = [] }

abbrev pub options : ServiceOptions
options = record { enable_metrics = true; enable_audit = true }

abbrev pub same : String → String
same t = t

restart_pod_job_example :
    IsRefused cluster "now"
      (restarted cluster "now" same "prod" "import-1" start).0
      (detected cluster "now" same "prod" "import-1" start (pod_of "import-1" job_owner)).type
    × ((restarted cluster "now" same "prod" "import-1" start).1.trace ≡ start.trace)
unfolding controlling is_controller
restart_pod_job_example =
    restart_pod_job cluster "now" same "prod" "import-1" start (pod_of "import-1" job_owner)
      job_owner refl refl (inl refl)

trace-restart_pod_example :
    (restarted cluster "now" same "prod" "agent-1" start).1.trace
    ≡ planned "now" "prod" "agent-1"
        (detected cluster "now" same "prod" "agent-1" start (pod_of "agent-1" daemon_owner))
      ++ start.trace
trace-restart_pod_example =
    trace-restart_pod cluster "now" same "prod" "agent-1" start (pod_of "agent-1" daemon_owner) refl

five-IsAccepted : IsAccepted "prod" "web" "ann" (pos 5)
five-IsAccepted = record {
  namespace_given = ground (arith, eq_iff "prod" "");
  name_given = ground (arith, eq_iff "web" "");
  user_given = ground (arith, eq_iff "ann" "");
  not_negative = ground arith;
}

two-IsAccepted : IsAccepted "prod" "web" "ann" (pos 2)
two-IsAccepted = record {
  namespace_given = five-IsAccepted.namespace_given;
  name_given = five-IsAccepted.name_given;
  user_given = five-IsAccepted.user_given;
  not_negative = ground arith;
}

trace-scale_changed_example :
    (scaled cluster options deployment "prod" "web" "ann" (pos 5) start).1.trace
    ≡ scale_audit cluster options deployment "prod" "web" "ann" (pos 2) (pos 5) "success"
      ∷ updated deployment "prod" (web (some (pos 5)))
      ∷ []
unfolding replicas_or_zero
trace-scale_changed_example =
    trace-scale_changed cluster options deployment "prod" "web" "ann" (pos 5) start
      (web (some (pos 2))) five-IsAccepted refl refl refl
