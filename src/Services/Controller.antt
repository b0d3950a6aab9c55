-- ===== src/Services/Controller.antt =====
-- internal/services/controller.go: which controller owns a pod, and how a pod of it is restarted.
pub mod Laws
use k8s_pod_manager_graphql.Prelude.{
  String, Bool, true, false, not, ◌&&◌, ◌||◌, Option, none, some, List, [], ◌∷◌, ◌==◌, any,
  if◌then◌else◌,
}
use k8s_pod_manager_graphql.Prelude.GoMap.{lookup}
use k8s_pod_manager_graphql.Services.Types.{OwnerReference, Pod}
use k8s_pod_manager_graphql.Services.Client.{
  ok, err, Client, Exec, ◌>>=◌, pure, read, when◌run◌otherwise◌,
}

-- A `ControllerType` is a string: an owner of an unknown kind, or a label, may give any.
pub record ControllerInfo : Type 0 where
  pub type : String
  pub name : String
  pub kind : String

abbrev pub controller_deployment : String
controller_deployment = "Deployment"

abbrev pub controller_stateful_set : String
controller_stateful_set = "StatefulSet"

abbrev pub controller_daemon_set : String
controller_daemon_set = "DaemonSet"

abbrev pub controller_replica_set : String
controller_replica_set = "ReplicaSet"

abbrev pub controller_job : String
controller_job = "Job"

abbrev pub controller_cron_job : String
controller_cron_job = "CronJob"

abbrev pub controller_node : String
controller_node = "Node"

abbrev pub controller_standalone : String
controller_standalone = "Standalone"

-- owner.Controller != nil && *owner.Controller
unfoldable pub is_controller : OwnerReference → Bool
is_controller owner = elim owner.controller [ none ↦ false | some b ↦ b ]

-- The loop over the owners that looks for a controlling owner
unfoldable pub controlling : List OwnerReference → Option OwnerReference
controlling [] = none
controlling (owner ∷ owners) = if is_controller owner then some owner else controlling owners

-- The loop over the owners of a ReplicaSet or a Job: the name of its controlling owner of a kind,
-- or "".
unfoldable pub owner_of_kind : String → List OwnerReference → String
owner_of_kind kind [] = ""
owner_of_kind kind (owner ∷ owners) =
    if is_controller owner && owner.kind == kind then owner.name else owner_of_kind kind owners

abbrev no_info : ControllerInfo
no_info = record { type = ""; name = ""; kind = "" }

abbrev info : String → String → String → ControllerInfo
info type name kind = record { type = type; name = name; kind = kind }

abbrev standalone : ControllerInfo
standalone = info controller_standalone "" ""

module _ {Q : Type 0} where
  -- isNodeManagedPod
  unfoldable pub is_node_managed_pod : Pod Q → Bool
  is_node_managed_pod pod =
      any (λ owner. owner.kind == "Node") pod.owner_references
      || elim (lookup "kubernetes.io/config.source" pod.annotations) [
        | none ↦ false
        | some v ↦ true
      ]

  -- The label of a Job, of `detectFromLabels` and of `detectBasicControllerInfo`
  unfoldable pub job_label : Pod Q → ControllerInfo → ControllerInfo
  job_label pod unlabelled = elim (lookup "job-name" pod.labels) [
    | some job_name ↦ info controller_job job_name "Job"
    | none ↦ elim (lookup "batch.kubernetes.io/job-name" pod.labels) [
      | some job_name ↦ info controller_job job_name "Job"
      | none ↦ unlabelled
    ]
  ]

  module _ (title : String → String) where
    -- detectFromLabels; `title` is strings.Title
    unfoldable pub detect_from_labels : Pod Q → ControllerInfo
    detect_from_labels pod = elim (lookup "app.kubernetes.io/managed-by" pod.labels) [
      | none ↦ job_label pod no_info
      | some managed_by ↦
          if not (managed_by == "")
          then info (title managed_by) "" (title managed_by)
          else job_label pod no_info
    ]

    -- What `DetectController` answers for a pod with no controlling owner
    unfoldable pub detect_unowned : Pod Q → ControllerInfo
    detect_unowned pod =
        let labelled = detect_from_labels pod in
        if not (labelled.type == "")
        then labelled
        else if is_node_managed_pod pod
        then info controller_node pod.node_name "Node"
        else standalone

    module _ (client : Client Q) where
      -- getDeploymentFromReplicaSet
      unfoldable pub get_deployment_from_replica_set :
          (namespace name : String) → Exec client.World String
      get_deployment_from_replica_set namespace name = do
        found ← read (client.get_replica_set namespace name)
        pure (elim found [ err e ↦ "" | ok owners ↦ owner_of_kind "Deployment" owners ])

      -- getCronJobFromJob
      unfoldable pub get_cron_job_from_job : (namespace name : String) → Exec client.World String
      get_cron_job_from_job namespace name = do
        found ← read (client.get_job namespace name)
        pure (elim found [ err e ↦ "" | ok owners ↦ owner_of_kind "CronJob" owners ])

      -- The `switch` on the kind of the controlling owner; the cases that copy the owner are one.
      unfoldable pub detect_owned : Pod Q → OwnerReference → Exec client.World ControllerInfo
      detect_owned pod owner =
          when owner.kind == "ReplicaSet"
          run (do
            deployment_name ← get_deployment_from_replica_set pod.namespace owner.name
            pure (
                if not (deployment_name == "")
                then info controller_deployment deployment_name "Deployment"
                else info controller_replica_set owner.name owner.kind))
          otherwise when owner.kind == "Job"
          run (do
            cron_job_name ← get_cron_job_from_job pod.namespace owner.name
            pure (
                if not (cron_job_name == "")
                then info controller_cron_job cron_job_name "CronJob"
                else info controller_job owner.name owner.kind))
          otherwise pure (info owner.kind owner.name owner.kind)

      -- DetectController
      unfoldable pub detect_controller : Pod Q → Exec client.World ControllerInfo
      detect_controller pod = elim (controlling pod.owner_references) [
        | none ↦ pure (detect_unowned pod)
        | some owner ↦ detect_owned pod owner
      ]

-- A `RestartMethod` is a string too.
abbrev pub method_rollout : String
method_rollout = "rollout"

abbrev pub method_delete : String
method_delete = "delete"

abbrev pub method_warning : String
method_warning = "warning"

-- DefaultRestartStrategy.CanRestart
unfoldable pub can_restart : String → Bool
can_restart type =
    type == controller_deployment
    || type == controller_stateful_set
    || type == controller_daemon_set
    || type == controller_replica_set
    || type == controller_standalone

-- DefaultRestartStrategy.GetRestartMethod
unfoldable pub get_restart_method : String → String
get_restart_method type =
    if type == controller_deployment || type == controller_stateful_set
    then method_rollout
    else if type == controller_daemon_set || type == controller_replica_set
    then method_delete
    else method_warning
