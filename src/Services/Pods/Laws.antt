-- ===== src/Services/Pods/Laws.antt =====
-- What deleting and restarting a pod do to the cluster and to the audit trail.
use k8s_pod_manager_graphql.Prelude.{
  String, ◌≡◌, refl, ◌≢◌, ◌∙◌, ap, Bool, true, false, Option, none, some, List, [], ◌∷◌, ◌++◌,
  eq_iff, arith, Option-cases, inl, inr,
}
use k8s_pod_manager_graphql.Services.Errors.{GoError, error_text}
use k8s_pod_manager_graphql.Services.Types.{Pod, ServiceOptions}
use k8s_pod_manager_graphql.Services.Client.{
  Result, ok, err, Outcome, returned, panicked, Client, Effect, deleted_pod, State,
}
use k8s_pod_manager_graphql.Services.Restart.{RestartResult, restart_pod}
use k8s_pod_manager_graphql.Services.Restart.Laws.{
  Agree, planned, detected, restart_pod-Agree, trace-restart_pod,
}
use k8s_pod_manager_graphql.Services.Pods.{
  validate_pod_params, delete_audit, finish_delete, delete_pod, pod_restart_audit, finish_restart,
  restart_audited,
}

-- The parameters that the service accepts
pub record IsGiven (namespace pod_name executed_by : String) : Type 0 where
  pub namespace_given : namespace ≢ ""
  pub name_given : pod_name ≢ ""
  pub user_given : executed_by ≢ ""

validate-none :
    (namespace pod_name executed_by : String)
    → IsGiven namespace pod_name executed_by
    → validate_pod_params namespace pod_name executed_by ≡ none
unfolding validate_pod_params
validate-none namespace pod_name executed_by h = ground (
  arith,
  h.namespace_given,
  h.name_given,
  h.user_given,
  eq_iff namespace "",
  eq_iff pod_name "",
  eq_iff executed_by "",
)

-- How the API's answer to a deletion is audited
abbrev pub delete_status : Result (Unit {0}) → String
delete_status (ok u) = "success"
delete_status (err e) = "failed"

abbrev pub delete_message : Result (Unit {0}) → String
delete_message (ok u) = "Pod deleted successfully"
delete_message (err e) = error_text e

abbrev pub is_ok : {A : Type 0} → Result A → Bool
is_ok (ok a) = true
is_ok (err e) = false

abbrev pub is_none : {A : Type 0} → Option A → Bool
is_none none = true
is_none (some a) = false

-- How the orchestrator's answer to a restart is audited
module _ {Q : Type 0} (client : Client Q) (options : ServiceOptions)
    (namespace pod_name executed_by : String) where
  abbrev pub restart_audits : Option RestartResult × Option GoError → List Effect
  restart_audits (some r, none) =
      pod_restart_audit client options namespace pod_name executed_by r ∷ []
  restart_audits (none, none) = []
  restart_audits (r, some e) = []

-- The function returned, and its error is the one given.
abbrev pub IsReturned : Outcome (Option RestartResult) → Option GoError → Type 0
IsReturned (returned (ok r)) e = e ≡ none
IsReturned (returned (err e')) e = e ≡ some e'
IsReturned (panicked text) e = ⊥

module _ {Q : Type 0} (client : Client Q) (options : ServiceOptions)
    (namespace pod_name executed_by : String) (s : State client.World) where
  abbrev pub delete_answer : Result (Unit {0})
  delete_answer = (client.delete_pod namespace pod_name s.world).0

  abbrev pub deleted : Option GoError × State client.World
  deleted = delete_pod client options namespace pod_name executed_by s

  module _ (title : String → String) (now : String) where
    abbrev pub orchestrated : (Option RestartResult × Option GoError) × State client.World
    orchestrated = restart_pod client now title namespace pod_name s

    abbrev pub restarted_pod : Outcome (Option RestartResult) × State client.World
    restarted_pod = restart_audited client options namespace pod_name executed_by title now s

  module _ (on : options.enable_audit ≡ true) (given : IsGiven namespace pod_name executed_by) where
    finish_delete_lem :
        (answer : Result (Unit {0})) (t : State client.World)
        → ((finish_delete client options namespace pod_name executed_by answer t).1.trace
            ≡ delete_audit client options namespace pod_name executed_by
                (delete_status answer)
                (delete_message answer)
              ∷ t.trace)
          × (is_none (finish_delete client options namespace pod_name executed_by answer t).0
              ≡ is_ok answer)
    unfolding finish_delete
    finish_delete_lem (ok u) t = rw on (refl, refl)
    finish_delete_lem (err e) t = rw on (refl, refl)

    -- With auditing on and every parameter given, a deletion calls the API once and writes one audit
    -- record after it, with the user and the outcome of that call, whether it succeeded or failed; it
    -- returns an error exactly if the call did.
    pub trace-delete_pod :
        (deleted.1.trace
          ≡ delete_audit client options namespace pod_name executed_by
              (delete_status delete_answer)
              (delete_message delete_answer)
            ∷ deleted_pod namespace pod_name
            ∷ s.trace)
        × (is_none deleted.0 ≡ is_ok delete_answer)
    unfolding delete_pod
    trace-delete_pod =
        rw (validate-none namespace pod_name executed_by given, delete_pod)
          (finish_delete_lem delete_answer _)

    module _ (title : String → String) (now : String) where
      finish_restart_lem :
          (answer : Option RestartResult × Option GoError) (t : State client.World)
          → Agree answer
          → ((finish_restart client options namespace pod_name executed_by answer t).1.trace
              ≡ restart_audits client options namespace pod_name executed_by answer ++ t.trace)
            × IsReturned
                (finish_restart client options namespace pod_name executed_by answer t).0
                answer.1
      unfolding finish_restart
      finish_restart_lem (some r, none) t h = rw on (refl, refl)
      finish_restart_lem (some r, some e) t h = (refl, refl)
      finish_restart_lem (none, some e) t h = (refl, refl)
      finish_restart_lem (none, none) t h = absurd h

      after_orchestrator :
          ((restarted_pod title now).1.trace
            ≡ restart_audits client options namespace pod_name executed_by
                (orchestrated title now).0
              ++ (orchestrated title now).1.trace)
          × IsReturned (restarted_pod title now).0 (orchestrated title now).0.1
      unfolding restart_audited
      after_orchestrator =
          rw (validate-none namespace pod_name executed_by given, restart_audited)
            (finish_restart_lem (orchestrated title now).0 (orchestrated title now).1
              (restart_pod-Agree client now title namespace pod_name s))

      -- With auditing on and every parameter given, the restart of a pod that is found makes the one
      -- write that its controller calls for, audits it afterwards if the restart succeeded, and does
      -- not audit a restart that failed. It never dereferences a missing result, and returns the
      -- orchestrator's error.
      pub trace-restart_audited :
          (pod : Pod Q)
          → (client.get_pod namespace pod_name s.world).0 ≡ ok pod
          → ((restarted_pod title now).1.trace
              ≡ restart_audits client options namespace pod_name executed_by
                  (orchestrated title now).0
                ++ (planned now namespace pod_name
                      (detected client now title namespace pod_name s pod)
                    ++ s.trace))
            × IsReturned (restarted_pod title now).0 (orchestrated title now).0.1
      trace-restart_audited pod found = (
        after_orchestrator.0
            ∙ ap
                (λ t.
                  restart_audits client options namespace pod_name executed_by
                    (orchestrated title now).0
                  ++ t)
                (trace-restart_pod client now title namespace pod_name s pod found),
        after_orchestrator.1,
      )

-- A result that claims success, or an error; neither a missing result nor a panic
abbrev pub HasResult : Outcome (Option RestartResult) → Type 0
HasResult (returned (ok (some r))) = r.success ≡ true
HasResult (returned (ok none)) = ⊥
HasResult (returned (err e)) = Unit
HasResult (panicked text) = ⊥

module _ {Q : Type 0} (client : Client Q) (options : ServiceOptions)
    (namespace pod_name executed_by : String) where
  finish_restart-HasResult :
      (answer : Option RestartResult × Option GoError) (s : State client.World)
      → Agree answer
      → HasResult (finish_restart client options namespace pod_name executed_by answer s).0
  unfolding finish_restart
  finish_restart-HasResult (some r, none) s h = h
  finish_restart-HasResult (some r, some e) s h = tt
  finish_restart-HasResult (none, some e) s h = tt
  finish_restart-HasResult (none, none) s h = absurd h

  -- Whatever its parameters and whatever the API answers, `RestartPod` of the service returns an
  -- error or a result that claims success; it never dereferences a missing result.
  pub restart_audited-HasResult :
      (title : String → String) (now : String) (s : State client.World)
      → HasResult (restart_audited client options namespace pod_name executed_by title now s).0
  unfolding restart_audited
  restart_audited-HasResult title now s =
      elim (Option-cases (validate_pod_params namespace pod_name executed_by)) [
        | inl e ↦
            rw (e, restart_audited)
              (finish_restart-HasResult (restart_pod client now title namespace pod_name s).0
                (restart_pod client now title namespace pod_name s).1
                (restart_pod-Agree client now title namespace pod_name s))
        | inr (m, e) ↦ rw (e, restart_audited) tt
      ]
