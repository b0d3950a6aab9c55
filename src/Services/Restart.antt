-- ===== src/Services/Restart.antt =====
-- internal/services/restart_orchestrator.go: restarting a pod by the means that fits its controller.
pub mod Laws
use k8s_pod_manager_graphql.Prelude.{
  String, Bool, true, false, not, Option, none, some, [], ◌∷◌, ◌==◌, if◌then◌else◌,
}
use k8s_pod_manager_graphql.Prelude.Text.{◌<>◌}
use k8s_pod_manager_graphql.Prelude.GoMap.{GoMap}
use k8s_pod_manager_graphql.Services.Errors.{
  GoError, nil, caused, error_text, new_not_found_error, new_conflict_error, new_internal_error,
  new_pod_operation_error,
}
use k8s_pod_manager_graphql.Services.Types.{Pod}
use k8s_pod_manager_graphql.Services.Client.{
  Result, ok, err, Client, WorkloadKind, deployment, stateful_set, deleted_pod, patched, Exec,
  ◌>>=◌, pure, read, write, when◌run◌otherwise◌,
}
use k8s_pod_manager_graphql.Services.Controller.{
  ControllerInfo, controller_deployment, controller_stateful_set, controller_standalone,
  method_rollout, method_delete, method_warning, can_restart, get_restart_method, detect_controller,
}

-- RestartResult
pub record RestartResult : Type 0 where
  pub success : Bool
  pub message : String
  pub method : String
  pub controller_type : String
  pub controller_name : String
  pub details : Option (GoMap String)
  pub warning : String

-- The strategic merge patch that sets the restart annotation; `now` is the clock in RFC 3339.
unfoldable pub restart_patch : String → String
restart_patch now =
    "{\n\t\t\"spec\": {\n\t\t\t\"template\": {\n\t\t\t\t\"metadata\": {\n\t\t\t\t\t\"annotations\": {\n"
    <> "\t\t\t\t\t\t\"kubectl.kubernetes.io/restartedAt\": \"" <> now
    <> "\"\n\t\t\t\t\t}\n\t\t\t\t}\n\t\t\t}\n\t\t}\n\t}"

-- A result whose other fields have Go's zero values
abbrev partial : String → String → GoMap String → RestartResult
partial message warning details = record {
  success = false;
  message = message;
  method = "";
  controller_type = "";
  controller_name = "";
  details = some details;
  warning = warning;
}

module _ {Q : Type 0} (client : Client Q) (now : String) where
  -- rolloutRestartDeployment and rolloutRestartStatefulSet
  unfoldable pub rollout_restart :
      WorkloadKind → (namespace name : String) → Exec client.World (Result (Unit {0}))
  rollout_restart kind namespace name =
      write (patched kind namespace name (restart_patch now))
        (client.patch_workload kind namespace name (restart_patch now))

  -- executeRolloutRestart
  unfoldable pub execute_rollout_restart :
      (namespace : String) → ControllerInfo → Exec client.World (Result RestartResult)
  execute_rollout_restart namespace info =
      when info.type == controller_deployment
      run (do
        done ← rollout_restart deployment namespace info.name
        pure (elim done [
          | err e ↦ err (
              new_pod_operation_error "rollout-restart" info.name namespace
                "failed to restart deployment" (caused e))
          | ok u ↦ ok (
              partial "Rollout restart initiated for deployment" "" (
                ("deployment", info.name)
                ∷ ("namespace", namespace)
                ∷ ("method", "rollout-restart")
                ∷ []))
        ]))
      otherwise when info.type == controller_stateful_set
      run (do
        done ← rollout_restart stateful_set namespace info.name
        pure (elim done [
          | err e ↦ err (
              new_pod_operation_error "rollout-restart" info.name namespace
                "failed to restart statefulset" (caused e))
          | ok u ↦ ok (
              partial "Rollout restart initiated for statefulset" "" (
                ("statefulset", info.name)
                ∷ ("namespace", namespace)
                ∷ ("method", "rollout-restart")
                ∷ []))
        ]))
      otherwise pure (
          err (
            new_conflict_error
              ("rollout restart not supported for controller type: " <> info.type)))

  -- executeDeleteRestart
  unfoldable pub execute_delete_restart :
      (namespace pod_name : String) → ControllerInfo → Exec client.World (Result RestartResult)
  execute_delete_restart namespace pod_name info = do
    done ← write (deleted_pod namespace pod_name) (client.delete_pod namespace pod_name)
    pure (elim done [
      | err e ↦ err (
          new_pod_operation_error "delete-restart" pod_name namespace "failed to delete pod"
            (caused e))
      | ok u ↦ ok (
          partial ("Pod deleted for recreation by " <> info.type) "" (
            ("pod", pod_name)
            ∷ ("namespace", namespace)
            ∷ ("controller", info.name)
            ∷ ("type", info.type)
            ∷ ("method", "delete")
            ∷ []))
    ])

  -- executeWarningRestart
  unfoldable pub execute_warning_restart :
      (namespace pod_name : String) → ControllerInfo → Exec client.World (Result RestartResult)
  execute_warning_restart namespace pod_name info = do
    done ← write (deleted_pod namespace pod_name) (client.delete_pod namespace pod_name)
    pure (elim done [
      | err e ↦ err (
          new_pod_operation_error "warning-restart" pod_name namespace "failed to delete pod"
            (caused e))
      | ok u ↦ ok (
          partial "Pod deleted (manual intervention may be required)"
            (if info.type == controller_standalone
              then "Standalone pod deleted - no controller will recreate it"
              else "Pod deleted but will not be automatically recreated")
            (("pod", pod_name)
              ∷ ("namespace", namespace)
              ∷ ("type", info.type)
              ∷ ("method", "delete-with-warning")
              ∷ []))
    ])

  -- executeRestart
  unfoldable pub execute_restart :
      (namespace pod_name : String)
      → ControllerInfo
      → (method : String) → Exec client.World (Result RestartResult)
  execute_restart namespace pod_name info method =
      when method == method_rollout
      run execute_rollout_restart namespace info
      otherwise when method == method_delete
      run execute_delete_restart namespace pod_name info
      otherwise when method == method_warning
      run execute_warning_restart namespace pod_name info
      otherwise pure (err (new_internal_error ("unsupported restart method: " <> method) nil))

  -- What `RestartPod` does once it knows the controller: the result, which may be nil, and the error
  unfoldable pub restart_controlled :
      (namespace pod_name : String)
      → ControllerInfo
      → Exec client.World (Option RestartResult × Option GoError)
  restart_controlled namespace pod_name info =
      when not (can_restart info.type)
      run pure (
        some (record {
          success = false;
          message = "Restart not supported for controller type: " <> info.type;
          method = method_warning;
          controller_type = info.type;
          controller_name = info.name;
          details = none;
          warning = "This controller type does not support restart operations";
        }),
        some (new_conflict_error ("restart not supported for controller type: " <> info.type)),
      )
      otherwise (do
        let method = get_restart_method info.type
        done ← execute_restart namespace pod_name info method
        pure (elim done [
          | err e ↦ (
            some (record {
              success = false;
              message = error_text e;
              method = method;
              controller_type = info.type;
              controller_name = info.name;
              details = none;
              warning = "";
            }),
            some e,
          )
          | ok result ↦ (
            some (record result {
              success = true;
              method = method;
              controller_type = info.type;
              controller_name = info.name;
            }),
            none,
          )
        ]))

  module _ (title : String → String) (namespace pod_name : String) where
    -- What `RestartPod` does with the answer about the pod; `title` is strings.Title.
    unfoldable pub restart_found :
        Result (Pod Q) → Exec client.World (Option RestartResult × Option GoError)
    restart_found (err e) =
        pure (none, some (new_not_found_error "pod" (namespace <> "/" <> pod_name)))
    restart_found (ok pod) = do
      info ← detect_controller title client pod
      restart_controlled namespace pod_name info

    -- RestartPod
    unfoldable pub restart_pod : Exec client.World (Option RestartResult × Option GoError)
    restart_pod = do found ← read (client.get_pod namespace pod_name); restart_found found
