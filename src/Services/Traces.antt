-- ===== src/Services/Traces.antt =====
-- Where the effects of the services lie: each belongs to the namespace of its request.
use k8s_pod_manager_graphql.Prelude.{
  String, ◌≡◌, refl, sym, ap, ◌∙◌, subst, Bool, true, false, Option, none, some, List, ◌∷◌, ◌++◌,
  All, Option-cases, Bool-cases, inl, inr,
}
use k8s_pod_manager_graphql.Prelude.Int.{ℤ, pos, ltb_ℤ, eqb_ℤ}
use k8s_pod_manager_graphql.Services.Errors.{GoError}
use k8s_pod_manager_graphql.Services.Types.{Pod, WorkloadObject, ServiceOptions}
use k8s_pod_manager_graphql.Services.Client.{
  Result, ok, err, Client, WorkloadKind, Effect, deleted_pod, updated, patched, logged_pod,
  logged_scale, State, audit,
}
use k8s_pod_manager_graphql.Services.Controller.{detect_controller}
use k8s_pod_manager_graphql.Services.Controller.Laws.{type_cases}
use k8s_pod_manager_graphql.Services.Restart.{RestartResult, restart_found, restart_pod}
use k8s_pod_manager_graphql.Services.Restart.Laws.{
  planned, trace-restart_controlled, trace-detect_controller,
}
use k8s_pod_manager_graphql.Services.Workload.{
  validate_scale_params, replicas_or_zero, finish_scale, scale_found, scale,
}
use k8s_pod_manager_graphql.Services.Pods.{
  validate_pod_params, finish_delete, delete_pod, finish_restart, restart_audited,
}

abbrev pub namespace_of : Effect → String
namespace_of (deleted_pod namespace name) = namespace
namespace_of (updated kind namespace object) = namespace
namespace_of (patched kind namespace name patch) = namespace
namespace_of (logged_pod a) = a.namespace
namespace_of (logged_scale a) = a.namespace

-- A trace grew from another by effects in the namespace only.
pub data Stays (namespace : String) (t : List Effect) : List Effect → Type 0 where
  same : Stays namespace t t
  more :
      {e : Effect} {t' : List Effect}
      → namespace_of e ≡ namespace
      → Stays namespace t t'
      → Stays namespace t (e ∷ t')

-- What holds of every effect in the namespace still holds of every effect after it.
pub All-Stays :
    {P : Effect → Type 0} {namespace : String} {t t' : List Effect}
    → ((e : Effect) → namespace_of e ≡ namespace → P e)
    → Stays namespace t t'
    → All P t
    → All P t'
All-Stays inside same h = h
All-Stays inside (more {e} p k) h = (inside e p, All-Stays inside k h)

module _ (namespace : String) (t : List Effect) where
  audit-Stays :
      {W : Type 0} (enabled : Bool) (e : Effect) (s : State W)
      → namespace_of e ≡ namespace
      → Stays namespace t s.trace
      → Stays namespace t (audit enabled e s).1.trace
  audit-Stays true e s p k = more p k
  audit-Stays false e s p k = k

  planned-Stays :
      (now pod_name name kind type : String)
      → Stays namespace t
          (planned now namespace pod_name (record { type = type; name = name; kind = kind }) ++ t)
  planned-Stays now pod_name name kind =
      type_cases
        (λ type.
          Stays namespace t (
            planned now namespace pod_name (record { type = type; name = name; kind = kind }) ++ t))
        (more refl same) (more refl same) (more refl same) (more refl same) (more refl same)
        (λ type o.
          rw
            (
              o.not_deployment, o.not_stateful_set, o.not_daemon_set, o.not_replica_set,
              o.not_standalone,
            )
            same)

module _ {Q : Type 0} (client : Client Q) (namespace : String) where
  module _ (now : String) (title : String → String) (pod_name : String) where
    restart_found-Stays :
        (found : Result (Pod Q)) (s : State client.World)
        → Stays namespace s.trace
            (restart_found client now title namespace pod_name found s).1.trace
    unfolding restart_found
    restart_found-Stays (err e) s = same
    restart_found-Stays (ok pod) s =
        let (info, s') = detect_controller title client pod s in
        subst (Stays namespace s.trace)
          (sym (
            trace-restart_controlled client now namespace pod_name info s'
            ∙ ap (λ t. planned now namespace pod_name info ++ t)
                (trace-detect_controller client now title pod s)))
          (planned-Stays namespace s.trace now pod_name info.name info.kind info.type)

    restart_pod-Stays :
        (s : State client.World)
        → Stays namespace s.trace (restart_pod client now title namespace pod_name s).1.trace
    unfolding restart_pod
    restart_pod-Stays s =
        restart_found-Stays (client.get_pod namespace pod_name s.world).0
          (record s { world = (client.get_pod namespace pod_name s.world).1 })

  module _ (options : ServiceOptions) (executed_by : String) where
    finish_restart-Stays :
        (pod_name : String) (t : List Effect) (answer : Option RestartResult × Option GoError)
        (s : State client.World)
        → Stays namespace t s.trace
        → Stays namespace t
            (finish_restart client options namespace pod_name executed_by answer s).1.trace
    unfolding finish_restart
    finish_restart-Stays pod_name t (some r, some e) s k = k
    finish_restart-Stays pod_name t (none, some e) s k = k
    finish_restart-Stays pod_name t (some r, none) s k =
        audit-Stays namespace t options.enable_audit _ s refl k
    finish_restart-Stays pod_name t (none, none) s k = k

    pub restart_audited-Stays :
        (pod_name : String) (title : String → String) (now : String) (s : State client.World)
        → Stays namespace s.trace
            (restart_audited client options namespace pod_name executed_by title now s).1.trace
    unfolding restart_audited
    restart_audited-Stays pod_name title now s =
        elim (Option-cases (validate_pod_params namespace pod_name executed_by)) [
          | inl e ↦
              rw (e, restart_audited)
                (finish_restart-Stays pod_name s.trace
                  (restart_pod client now title namespace pod_name s).0
                  (restart_pod client now title namespace pod_name s).1
                  (restart_pod-Stays now title pod_name s))
          | inr (m, e) ↦ rw (e, restart_audited) same
        ]

    finish_delete-Stays :
        (pod_name : String) (t : List Effect) (answer : Result (Unit {0})) (s : State client.World)
        → Stays namespace t s.trace
        → Stays namespace t
            (finish_delete client options namespace pod_name executed_by answer s).1.trace
    unfolding finish_delete
    finish_delete-Stays pod_name t (err e) s k =
        audit-Stays namespace t options.enable_audit _ s refl k
    finish_delete-Stays pod_name t (ok u) s k =
        audit-Stays namespace t options.enable_audit _ s refl k

    pub delete_pod-Stays :
        (pod_name : String) (s : State client.World)
        → Stays namespace s.trace
            (delete_pod client options namespace pod_name executed_by s).1.trace
    unfolding delete_pod
    delete_pod-Stays pod_name s =
        elim (Option-cases (validate_pod_params namespace pod_name executed_by)) [
          | inl e ↦
              rw (e, delete_pod)
                (finish_delete-Stays pod_name s.trace _ _
                  (more {e = deleted_pod namespace pod_name} refl same))
          | inr (m, e) ↦ rw (e, delete_pod) same
        ]

    module _ (kind : WorkloadKind) (name : String) where
      finish_scale-Stays :
          (previous replicas : ℤ) (t : List Effect) (answer : Result WorkloadObject)
          (s : State client.World)
          → Stays namespace t s.trace
          → Stays namespace t
              (finish_scale client options kind namespace name executed_by previous replicas answer
                s).1.trace
      unfolding finish_scale
      finish_scale-Stays previous replicas t (err e) s k =
          audit-Stays namespace t options.enable_audit _ s refl k
      finish_scale-Stays previous replicas t (ok object) s k =
          audit-Stays namespace t options.enable_audit _ s refl k

      scale_found-Stays :
          (replicas : ℤ) (found : Result WorkloadObject) (s : State client.World)
          → Stays namespace s.trace
              (scale_found client options kind namespace name executed_by replicas found s).1.trace
      unfolding scale_found
      scale_found-Stays replicas (err e) s = same
      scale_found-Stays replicas (ok object) s =
          elim (Bool-cases (eqb_ℤ (replicas_or_zero object.replicas) replicas)) [
            | inl e ↦ rw e same
            | inr e ↦ rw e (
                finish_scale-Stays (replicas_or_zero object.replicas) replicas s.trace _ _ (
                  more {e = updated kind namespace (record object { replicas = some replicas })}
                    refl same))
          ]

      pub scale-Stays :
          (replicas : ℤ) (s : State client.World)
          → Stays namespace s.trace
              (scale client options kind namespace name executed_by replicas s).1.trace
      unfolding scale
      scale-Stays replicas s =
          elim (Option-cases (validate_scale_params kind namespace name executed_by)) [
            | inr (m, e) ↦ rw (e, scale) same
            | inl e ↦ elim (Bool-cases (ltb_ℤ replicas (pos 0))) [
              | inl n ↦ rw (e, scale, n) same
              | inr n ↦
                  rw (e, scale, n)
                    (scale_found-Stays replicas (client.get_workload kind namespace name s.world).0
                      _)
            ]
          ]
