-- ===== src/Services/Workload.antt =====
-- internal/services/deployment_service_impl.go and statefulset_service_impl.go: scaling and rolling
-- out. The two files differ in the names of the resource and in the API that they call, which a
-- `WorkloadKind` chooses here.
pub mod Laws
use k8s_pod_manager_graphql.Prelude.{
  String, true, ◌||◌, Option, none, some, [], ◌==◌, if◌then◌else◌,
}
use k8s_pod_manager_graphql.Prelude.Text.{◌<>◌, show_int}
use k8s_pod_manager_graphql.Prelude.Int.{ℤ, pos, ltb_ℤ, eqb_ℤ}
use k8s_pod_manager_graphql.Services.Errors.{
  GoError, nil, caused, new_validation_error, new_not_found_error, new_internal_error,
}
use k8s_pod_manager_graphql.Services.Types.{WorkloadObject, ScaleResult, ServiceOptions}
use k8s_pod_manager_graphql.Services.Client.{
  Result, ok, err, Outcome, returned, panicked, Client, WorkloadKind, deployment, stateful_set,
  Effect, updated, patched, logged_pod, logged_scale, Exec, ◌>>=◌, ◌>>◌, pure, read, write, audit,
  when◌run◌otherwise◌,
}
use k8s_pod_manager_graphql.Services.Restart.{restart_patch}

-- The resource in messages and results
abbrev pub resource : WorkloadKind → String
resource deployment = "deployment"
resource stateful_set = "statefulset"

-- The resource at the head of a message, and as a controller
abbrev pub title : WorkloadKind → String
title deployment = "Deployment"
title stateful_set = "StatefulSet"

-- validateScaleParams; validateParams calls it.
unfoldable pub validate_scale_params :
    WorkloadKind → (namespace name executed_by : String) → Option GoError
validate_scale_params kind namespace name executed_by =
    if namespace == ""
    then some (new_validation_error "namespace is required" nil)
    else if name == ""
    then some (new_validation_error (resource kind <> " name is required") nil)
    else if executed_by == ""
    then some (new_validation_error "executedBy is required for audit trail" nil)
    else none

-- determineScaleAction
unfoldable pub determine_scale_action : (previous new : ℤ) → String
determine_scale_action previous new =
    if eqb_ℤ new (pos 0)
    then "stopping"
    else if eqb_ℤ previous (pos 0)
    then "starting"
    else if ltb_ℤ previous new
    then "scaling-up-from-" <> show_int previous <> "-to-" <> show_int new
    else if ltb_ℤ new previous
    then "scaling-down-from-" <> show_int previous <> "-to-" <> show_int new
    else "no-change"

-- *spec.Replicas, 0 for nil
unfoldable pub replicas_or_zero : Option ℤ → ℤ
replicas_or_zero none = pos 0
replicas_or_zero (some n) = n

module _ {Q : Type 0} (client : Client Q) (options : ServiceOptions) (kind : WorkloadKind) where
  -- GetDeployment, GetStatefulSet
  unfoldable pub get_workload :
      (namespace name : String) → Exec client.World (Result WorkloadObject)
  get_workload namespace name =
      when namespace == "" || name == ""
      run pure (err (new_validation_error "namespace and name are required" nil))
      otherwise (do
        found ← read (client.get_workload kind namespace name)
        pure (elim found [
          | err e ↦ err (new_not_found_error (resource kind) (namespace <> "/" <> name))
          | ok object ↦ ok object
        ]))

  module _ (namespace name executed_by : String) where
    -- The audit record of a scaling
    abbrev pub scale_audit : (previous replicas : ℤ) (status : String) → Effect
    scale_audit previous replicas status = logged_scale (record {
      resource_type = resource kind;
      resource_name = name;
      namespace = namespace;
      previous_replicas = previous;
      new_replicas = replicas;
      executed_by = executed_by;
      status = status;
      reason = determine_scale_action previous replicas;
    })

    abbrev pub scale_result : (message action : String) (previous replicas : ℤ) → ScaleResult
    scale_result message action previous replicas = record {
      success = true;
      message = message;
      resource_type = resource kind;
      resource_name = name;
      namespace = namespace;
      previous_replicas = previous;
      new_replicas = replicas;
      action = action;
    }

    -- The answer to an update; a nil `Spec.Replicas` in it is dereferenced.
    unfoldable pub finish_scale :
        (previous replicas : ℤ) → Result WorkloadObject → Exec client.World (Outcome ScaleResult)
    finish_scale previous replicas (err e) = do
      audit options.enable_audit (scale_audit previous replicas "failed")
      pure (
          returned (
            err (
              new_internal_error
                ("failed to scale " <> resource kind <> " " <> namespace <> "/" <> name)
                (caused e))))
    finish_scale previous replicas (ok object) = do
      audit options.enable_audit (scale_audit previous replicas "success")
      pure (elim object.replicas [
        | none ↦ panicked "nil pointer dereference"
        | some new_replicas ↦ returned (
            ok (
              scale_result
                (title kind
                  <> " scaled successfully from "
                  <> show_int previous
                  <> " to "
                  <> show_int replicas
                  <> " replicas")
                (determine_scale_action previous replicas) previous new_replicas))
      ])

    -- Scaling an object that was found
    unfoldable pub scale_found :
        (replicas : ℤ) → Result WorkloadObject → Exec client.World (Outcome ScaleResult)
    scale_found replicas (err e) =
        pure (returned (err (new_not_found_error (resource kind) (namespace <> "/" <> name))))
    scale_found replicas (ok object) =
        let previous = replicas_or_zero object.replicas in
        let target = record object { replicas = some replicas } in
        when eqb_ℤ previous replicas
        run pure (
            returned (
              ok (
                scale_result "No scaling required - already at desired replicas" "no-change"
                  previous replicas)))
        otherwise (do
          answer ←
              write (updated kind namespace target) (client.update_workload kind namespace target)
          finish_scale previous replicas answer)

    -- ScaleDeployment, ScaleStatefulSet
    unfoldable pub scale : (replicas : ℤ) → Exec client.World (Outcome ScaleResult)
    scale replicas = elim (validate_scale_params kind namespace name executed_by) [
      | some e ↦ pure (returned (err e))
      | none ↦
          when ltb_ℤ replicas (pos 0)
          run pure (returned (err (new_validation_error "replicas must be non-negative" nil)))
          otherwise (do
            found ← read (client.get_workload kind namespace name)
            scale_found replicas found)
    ]

    -- The audit record of a restart
    abbrev pub restart_audit : Effect
    restart_audit = logged_pod (record {
      pod_name = resource kind <> "-restart";
      namespace = namespace;
      operation = "rollout-restart";
      controller = title kind;
      controller_name = name;
      executed_by = executed_by;
      status = "success";
      message = title kind <> " rollout restart initiated";
      details = none;
    })

    -- RolloutRestart; `now` is the clock in RFC 3339.
    unfoldable pub rollout_restart : (now : String) → Exec client.World (Option GoError)
    rollout_restart now = elim (validate_scale_params kind namespace name executed_by) [
      | some e ↦ pure (some e)
      | none ↦ (do
        done ←
            write (patched kind namespace name (restart_patch now))
              (client.patch_workload kind namespace name (restart_patch now))
        elim done [
          | err e ↦ pure (
              some (
                new_internal_error
                  ("failed to restart " <> resource kind <> " " <> namespace <> "/" <> name)
                  (caused e)))
          | ok u ↦ (do audit options.enable_audit restart_audit; pure none)
        ])
    ]

module _ {Q : Type 0} (client : Client Q) (options : ServiceOptions) where
  unfoldable pub scale_deployment :
      (namespace name executed_by : String) (replicas : ℤ) → Exec client.World (Outcome ScaleResult)
  scale_deployment = scale client options deployment

  unfoldable pub scale_stateful_set :
      (namespace name executed_by : String) (replicas : ℤ) → Exec client.World (Outcome ScaleResult)
  scale_stateful_set = scale client options stateful_set
