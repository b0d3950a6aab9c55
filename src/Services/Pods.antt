-- ===== src/Services/Pods.antt =====
-- internal/services/pod_service_impl.go: deleting and restarting a pod with an audit trail, the watch
-- loop, and the choice of the container whose logs are streamed.
pub mod Laws
pub mod Streams
pub mod Tests
use k8s_pod_manager_graphql.Prelude.{
  String, Bool, not, ◌&&◌, ◌||◌, Option, none, some, List, [], ◌∷◌, ◌==◌, any, if◌then◌else◌,
}
use k8s_pod_manager_graphql.Prelude.Text.{◌<>◌}
use k8s_pod_manager_graphql.Services.Errors.{
  GoError, nil, caused, error_text, new_validation_error, new_internal_error,
  new_pod_operation_error,
}
use k8s_pod_manager_graphql.Services.Types.{
  Pod, PodCondition, Container, ContainerStatus, ServiceOptions,
}
use k8s_pod_manager_graphql.Services.Client.{
  Result, ok, err, Outcome, returned, panicked, Client, Effect, deleted_pod, logged_pod, Exec,
  ◌>>=◌, ◌>>◌, pure, write, audit,
}
use k8s_pod_manager_graphql.Services.Controller.{ControllerInfo, detect_controller}
use k8s_pod_manager_graphql.Services.Restart.{RestartResult, restart_pod}

-- validatePodParams
unfoldable pub validate_pod_params : (namespace pod_name executed_by : String) → Option GoError
validate_pod_params namespace pod_name executed_by =
    if namespace == ""
    then some (new_validation_error "namespace is required" nil)
    else if pod_name == ""
    then some (new_validation_error "pod name is required" nil)
    else if executed_by == ""
    then some (new_validation_error "executedBy is required for audit trail" nil)
    else none

module _ {Q : Type 0} (client : Client Q) (options : ServiceOptions)
    (namespace pod_name executed_by : String) where
  -- The audit record of a deletion
  abbrev pub delete_audit : (status message : String) → Effect
  delete_audit status message = logged_pod (record {
    pod_name = pod_name;
    namespace = namespace;
    operation = "delete";
    controller = "";
    controller_name = "";
    executed_by = executed_by;
    status = status;
    message = message;
    details = none;
  })

  -- DeletePod, after the API's answer
  unfoldable pub finish_delete : Result (Unit {0}) → Exec client.World (Option GoError)
  finish_delete (err e) = do
    audit options.enable_audit (delete_audit "failed" (error_text e))
    pure (
        some
          (new_pod_operation_error "delete" pod_name namespace "failed to delete pod" (caused e)))
  finish_delete (ok u) = do
    audit options.enable_audit (delete_audit "success" "Pod deleted successfully")
    pure none

  -- DeletePod
  unfoldable pub delete_pod : Exec client.World (Option GoError)
  delete_pod = elim (validate_pod_params namespace pod_name executed_by) [
    | some e ↦ pure (some e)
    | none ↦ (do
      done ← write (deleted_pod namespace pod_name) (client.delete_pod namespace pod_name)
      finish_delete done)
  ]

  -- The audit record of a restart
  abbrev pub pod_restart_audit : RestartResult → Effect
  pod_restart_audit result = logged_pod (record {
    pod_name = pod_name;
    namespace = namespace;
    operation = "restart";
    controller = result.controller_type;
    controller_name = result.controller_name;
    executed_by = executed_by;
    status = "success";
    message = result.message;
    details = result.details;
  })

  -- RestartPod, after the orchestrator's answer; auditing a nil result dereferences it.
  unfoldable pub finish_restart :
      Option RestartResult × Option GoError → Exec client.World (Outcome (Option RestartResult))
  finish_restart (result, some e) = pure (returned (err e))
  finish_restart (some result, none) = do
    audit options.enable_audit (pod_restart_audit result)
    pure (returned (ok (some result)))
  finish_restart (none, none) =
      pure (if options.enable_audit then panicked "nil pointer dereference" else returned (ok none))

  -- RestartPod; `title` is strings.Title, `now` the clock in RFC 3339.
  unfoldable pub restart_audited :
      (title : String → String) (now : String) → Exec client.World (Outcome (Option RestartResult))
  restart_audited title now = elim (validate_pod_params namespace pod_name executed_by) [
    | some e ↦ pure (returned (err e))
    | none ↦ (do done ← restart_pod client now title namespace pod_name; finish_restart done)
  ]

-- The condition in the loop over the pod's conditions
unfoldable pub explains : PodCondition → Bool
explains condition = condition.status == "False" && not (condition.reason == "")

-- The loop over the pod's conditions
unfoldable pub condition_details : List PodCondition → String × String
condition_details [] = ("", "")
condition_details (condition ∷ conditions) =
    if explains condition
    then (condition.reason, condition.message)
    else condition_details conditions

-- The details of the first container, of a pod that has ended
unfoldable pub status_details : List ContainerStatus → Option (String × String)
status_details [] = none
status_details (status ∷ statuses) = elim status.terminated [
  | some t ↦ some (t.reason, t.message)
  | none ↦ elim status.waiting [ some w ↦ some (w.reason, w.message) | none ↦ none ]
]

-- extractEventDetails
unfoldable pub extract_event_details : {Q : Type 0} → Pod Q → String × String
extract_event_details pod =
    if pod.phase == "Failed" || pod.phase == "Succeeded"
    then elim (status_details pod.container_statuses) [
      | some details ↦ details
      | none ↦ condition_details pod.conditions
    ]
    else condition_details pod.conditions

-- What the watch loop receives: an event of the watcher, with the pod if its object is one, the end of
-- the watcher's channel, or the end of the context, seen before an event or while one is sent
pub data Received (Q : Type 0) : Type 0 where
  event : (type : String) → Option (Pod Q) → Received Q
  closed : Received Q
  cancelled : Received Q
  cancelled_in_send : (type : String) → Pod Q → Received Q

-- PodWatchEvent without its time
pub record PodWatchEvent (I : Type 0) : Type 0 where
  pub type : String
  pub pod : I
  pub reason : String
  pub message : String

module _ {Q I : Type 0} (client : Client Q) (title : String → String)
    (convert : Pod Q → ControllerInfo → I) where
  -- The event that the loop sends for a pod; `convert` is ConvertPod of the injected PodConverter.
  unfoldable pub watch_event : (type : String) → Pod Q → Exec client.World (PodWatchEvent I)
  watch_event type pod = do
    info ← detect_controller title client pod
    pure (record {
      type = type;
      pod = convert pod info;
      reason = (extract_event_details pod).0;
      message = (extract_event_details pod).1;
    })

  -- processWatchEvents: the events that it sends and the error that it ends with; none while it still
  -- waits for the next event. `context_error` is ctx.Err().
  unfoldable pub process_watch_events :
      (context_error : GoError)
      → List (Received Q)
      → Exec client.World (List (PodWatchEvent I) × Option GoError)
  process_watch_events context_error [] s = (([], none), s)
  process_watch_events context_error (cancelled ∷ rest) s = (([], some context_error), s)
  process_watch_events context_error (closed ∷ rest) s =
      (([], some (new_internal_error "watch channel closed unexpectedly" nil)), s)
  process_watch_events context_error (event type none ∷ rest) s =
      process_watch_events context_error rest s
  process_watch_events context_error (event type (some pod) ∷ rest) s =
      let (e, s') = watch_event type pod s in
      let ((es, end), s'') = process_watch_events context_error rest s' in ((e ∷ es, end), s'')
  process_watch_events context_error (cancelled_in_send type pod ∷ rest) s =
      (([], some context_error), (watch_event type pod s).1)

-- The container of StreamLogs: the one asked for, else the pod's first, which must be the pod's.
unfoldable pub default_container :
    {Q : Type 0} → (asked : String) → List (Container Q) → Result String
default_container asked containers =
    if asked == ""
    then elim containers [
      | [] ↦ err (new_validation_error "pod has no containers" nil)
      | container ∷ rest ↦ ok container.name
    ]
    else ok asked

unfoldable pub choose_container :
    {Q : Type 0} → (asked : String) → List (Container Q) → Result String
choose_container asked containers = elim (default_container asked containers) [
  | err e ↦ err e
  | ok name ↦
      if any (λ container. container.name == name) containers
      then ok name
      else err (new_validation_error ("container '" <> name <> "' not found in pod") nil)
]
