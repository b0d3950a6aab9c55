-- ===== src/Services/Restart/Laws.antt =====
-- What restarting a pod does to the cluster, for every type of controller.
use k8s_pod_manager_graphql.Prelude.{
  String, ◌≡◌, refl, ◌⊎◌, ◌∙◌, ap, sym, subst, Bool, true, false, Option, none, some, List, [], ◌∷◌,
  ◌++◌, ◌==◌, arith, if◌then◌else◌, Option-cases, inl, inr,
}
use k8s_pod_manager_graphql.Prelude.Text.{◌<>◌}
use k8s_pod_manager_graphql.Services.Errors.{GoError, new_conflict_error}
use k8s_pod_manager_graphql.Services.Types.{Pod, OwnerReference}
use k8s_pod_manager_graphql.Services.Client.{
  Result, ok, err, Client, deployment, stateful_set, Effect, deleted_pod, patched, State,
}
use k8s_pod_manager_graphql.Services.Controller.{
  ControllerInfo, can_restart, get_restart_method, detect_controller, detect_owned, controlling,
  get_deployment_from_replica_set, get_cron_job_from_job,
}
use k8s_pod_manager_graphql.Services.Controller.Laws.{IsOther, type_cases, can_restart_of_IsOther}
use k8s_pod_manager_graphql.Services.Restart.{
  RestartResult, restart_patch, rollout_restart, execute_rollout_restart, execute_delete_restart,
  execute_warning_restart, execute_restart, restart_controlled, restart_found, restart_pod,
}

-- The one write that a restart makes, by the type of the controller; none where the type has none.
abbrev pub planned : (now namespace pod_name : String) → ControllerInfo → List Effect
planned now namespace pod_name info =
    if info.type == "Deployment"
    then patched deployment namespace info.name (restart_patch now) ∷ []
    else if info.type == "StatefulSet"
    then patched stateful_set namespace info.name (restart_patch now) ∷ []
    else if info.type == "DaemonSet"
    then deleted_pod namespace pod_name ∷ []
    else if info.type == "ReplicaSet"
    then deleted_pod namespace pod_name ∷ []
    else if info.type == "Standalone"
    then deleted_pod namespace pod_name ∷ []
    else []

-- A restart that reports no error succeeded, and one that reports an error did not.
abbrev pub Agree : Option RestartResult × Option GoError → Type 0
Agree (some r, none) = r.success ≡ true
Agree (some r, some e) = r.success ≡ false
Agree (none, none) = ⊥
Agree (none, some e) = Unit

-- The kinds of controller whose pods are left to run to their end
abbrev pub IsJob : String → Type 0
IsJob t = (t ≡ "Job") ⊎ (t ≡ "CronJob")

can_restart_of_IsJob : (t : String) → IsJob t → can_restart t ≡ false
unfolding can_restart
can_restart_of_IsJob t (inl e) = rw e
can_restart_of_IsJob t (inr e) = rw e

module _ {Q : Type 0} (client : Client Q) (now : String) where
  abbrev Planned : (namespace pod_name name kind : String) → State client.World → String → Type 0
  Planned namespace pod_name name kind s type =
      (restart_controlled client now namespace pod_name
        (record { type = type; name = name; kind = kind }) s).1.trace
      ≡ planned now namespace pod_name (record { type = type; name = name; kind = kind }) ++ s.trace

  trace-restart_other :
      (namespace pod_name name kind : String) (s : State client.World) (t : String)
      → IsOther t
      → Planned namespace pod_name name kind s t
  unfolding restart_controlled
  trace-restart_other namespace pod_name name kind s t o = rw (
    can_restart_of_IsOther t o,
    o.not_deployment,
    o.not_stateful_set,
    o.not_daemon_set,
    o.not_replica_set,
    o.not_standalone,
  )

  -- A restart writes exactly once, and what the type of the controller calls for: a patch of the
  -- Deployment or StatefulSet by its name, or the deletion of the pod itself for a DaemonSet, a
  -- ReplicaSet and a standalone pod. For any other type it writes nothing.
  pub trace-restart_controlled :
      (namespace pod_name : String) (info : ControllerInfo) (s : State client.World)
      → (restart_controlled client now namespace pod_name info s).1.trace
        ≡ planned now namespace pod_name info ++ s.trace
  unfolding restart_controlled execute_restart execute_rollout_restart execute_delete_restart
      execute_warning_restart rollout_restart can_restart get_restart_method
  trace-restart_controlled namespace pod_name info s =
      type_cases (Planned namespace pod_name info.name info.kind s) refl refl refl refl refl
        (trace-restart_other namespace pod_name info.name info.kind s) info.type

  restart_controlled-Agree :
      (namespace pod_name : String) (info : ControllerInfo) (s : State client.World)
      → Agree (restart_controlled client now namespace pod_name info s).0
  unfolding restart_controlled
  restart_controlled-Agree namespace pod_name info s = ground arith

  restart_found-Agree :
      (title : String → String) (namespace pod_name : String) (found : Result (Pod Q))
      (s : State client.World)
      → Agree (restart_found client now title namespace pod_name found s).0
  unfolding restart_found
  restart_found-Agree title namespace pod_name (err e) s = tt
  restart_found-Agree title namespace pod_name (ok pod) s =
      let (info, s') = detect_controller title client pod s in
      restart_controlled-Agree namespace pod_name info s'

  -- Whatever the cluster answers, `RestartPod` returns a result that claims success exactly when it
  -- returns no error; a result is missing only beside an error.
  pub restart_pod-Agree :
      (title : String → String) (namespace pod_name : String) (s : State client.World)
      → Agree (restart_pod client now title namespace pod_name s).0
  unfolding restart_pod
  restart_pod-Agree title namespace pod_name s =
      restart_found-Agree title namespace pod_name (client.get_pod namespace pod_name s.world).0
        (record s { world = (client.get_pod namespace pod_name s.world).1 })

  trace-detect_owned :
      (title : String → String) (pod : Pod Q) (owner : OwnerReference) (s : State client.World)
      → (detect_owned title client pod owner s).1.trace ≡ s.trace
  unfolding detect_owned get_deployment_from_replica_set get_cron_job_from_job
  trace-detect_owned title pod owner s = ground arith

  pub trace-detect_controller :
      (title : String → String) (pod : Pod Q) (s : State client.World)
      → (detect_controller title client pod s).1.trace ≡ s.trace
  unfolding detect_controller
  trace-detect_controller title pod s = elim (Option-cases (controlling pod.owner_references)) [
    | inl e ↦ rw (e, detect_controller)
    | inr (owner, e) ↦ rw (e, detect_controller) (trace-detect_owned title pod owner s)
  ]

  module _ (title : String → String) (pod : Pod Q) (name : String) (controller : Option Bool)
      (s : State client.World) where
    abbrev OwnedJob : String → Type 0
    OwnedJob kind =
        IsJob
          (detect_owned title client pod
            (record { kind = kind; name = name; controller = controller }) s).0.type

    owned_job : OwnedJob "Job"
    unfolding detect_owned
    owned_job = ground arith

    owned_cron_job : OwnedJob "CronJob"
    unfolding detect_owned
    owned_cron_job = inr refl

  type-detect_owned-IsJob :
      (title : String → String) (pod : Pod Q) (owner : OwnerReference) (s : State client.World)
      → IsJob owner.kind
      → IsJob (detect_owned title client pod owner s).0.type
  type-detect_owned-IsJob title pod owner s (inl e) =
      subst (OwnedJob title pod owner.name owner.controller s) (sym e)
        (owned_job title pod owner.name owner.controller s)
  type-detect_owned-IsJob title pod owner s (inr e) =
      subst (OwnedJob title pod owner.name owner.controller s) (sym e)
        (owned_cron_job title pod owner.name owner.controller s)

  -- The answer of `RestartPod` is a conflict that names the type of the controller.
  abbrev pub IsRefused : Option RestartResult × Option GoError → String → Type 0
  IsRefused answer t =
      answer.1 ≡ some (new_conflict_error ("restart not supported for controller type: " <> t))

  restart_controlled_job :
      (namespace pod_name : String) (info : ControllerInfo) (s : State client.World)
      → IsJob info.type
      → IsRefused (restart_controlled client now namespace pod_name info s).0 info.type
        × ((restart_controlled client now namespace pod_name info s).1 ≡ s)
  unfolding restart_controlled
  restart_controlled_job namespace pod_name info s h =
      rw (can_restart_of_IsJob info.type h, restart_controlled) (refl, refl)

  module _ (title : String → String) (namespace pod_name : String) (s : State client.World) where
    -- The state after the call that looks the pod up
    abbrev pub looked_up : State client.World
    looked_up = record s { world = (client.get_pod namespace pod_name s.world).1 }

    -- The controller that the detector finds for a pod that was looked up
    abbrev pub detected : Pod Q → ControllerInfo
    detected pod = (detect_controller title client pod looked_up).0

    abbrev pub restarted : (Option RestartResult × Option GoError) × State client.World
    restarted = restart_pod client now title namespace pod_name s

    after_lookup :
        (found : Result (Pod Q))
        → (client.get_pod namespace pod_name s.world).0 ≡ found
        → restarted ≡ restart_found client now title namespace pod_name found looked_up
    unfolding restart_pod
    after_lookup found e = rw (e, restart_pod)

    -- For a pod that is found, the one write of the restart is the one that the detected controller
    -- calls for; detecting it writes nothing.
    pub trace-restart_pod :
        (pod : Pod Q)
        → (client.get_pod namespace pod_name s.world).0 ≡ ok pod
        → restarted.1.trace ≡ planned now namespace pod_name (detected pod) ++ s.trace
    unfolding restart_found
    trace-restart_pod pod e =
        let (info, s') = detect_controller title client pod looked_up in
        ap (λ r. r.1.trace) (after_lookup (ok pod) e)
        ∙ trace-restart_controlled namespace pod_name info s'
        ∙ ap (λ t. planned now namespace pod_name info ++ t)
            (trace-detect_controller title pod looked_up)

    detected_owner :
        (pod : Pod Q) (owner : OwnerReference)
        → controlling pod.owner_references ≡ some owner
        → detect_controller title client pod looked_up
          ≡ detect_owned title client pod owner looked_up
    unfolding detect_controller
    detected_owner pod owner owned = rw (owned, detect_controller)

    detected-IsJob :
        (pod : Pod Q) (owner : OwnerReference)
        → controlling pod.owner_references ≡ some owner
        → IsJob owner.kind
        → IsJob (detected pod).type
    detected-IsJob pod owner owned job =
        subst (λ r. IsJob r.0.type) (sym (detected_owner pod owner owned))
          (type-detect_owned-IsJob title pod owner looked_up job)

    -- A pod that a Job or a CronJob owns is neither deleted nor rolled out: the restart writes
    -- nothing and returns a conflict.
    pub restart_pod_job :
        (pod : Pod Q) (owner : OwnerReference)
        → (client.get_pod namespace pod_name s.world).0 ≡ ok pod
        → controlling pod.owner_references ≡ some owner
        → IsJob owner.kind
        → IsRefused restarted.0 (detected pod).type × (restarted.1.trace ≡ s.trace)
    unfolding restart_found
    restart_pod_job pod owner e owned job =
        let (info, s') = detect_controller title client pod looked_up in
        let (refused, same) =
          restart_controlled_job namespace pod_name info s' (detected-IsJob pod owner owned job) in
        let found = after_lookup (ok pod) e in
        (
          ap (λ r. r.0.1) found ∙ refused,
          ap (λ r. r.1.trace) found
              ∙ ap (λ (r : State client.World). r.trace) same
              ∙ trace-detect_controller title pod looked_up,
        )
