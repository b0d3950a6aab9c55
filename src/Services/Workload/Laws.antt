-- ===== src/Services/Workload/Laws.antt =====
-- What scaling does to the cluster and to the audit trail, on every branch.
use k8s_pod_manager_graphql.Prelude.{
  String, ◌≡◌, refl, ◌≢◌, ◌⊎◌, true, false, none, some, ◌∷◌, ◌==◌, arith, Bool-cases, inl, inr,
  eq_iff,
}
use k8s_pod_manager_graphql.Prelude.Int.{ℤ, pos, ltb_ℤ, eqb_ℤ, ◌<ℤ◌, ◌≤ℤ◌}
use k8s_pod_manager_graphql.Prelude.Text.{◌<>◌, show_int}
use k8s_pod_manager_graphql.Services.Errors.{
  GoError, ErrorType, nil, new_validation_error, service_type,
}
use k8s_pod_manager_graphql.Services.Types.{WorkloadObject, ServiceOptions, ScaleResult}
use k8s_pod_manager_graphql.Services.Client.{
  Result, ok, err, Outcome, returned, Client, WorkloadKind, updated, State,
}
use k8s_pod_manager_graphql.Services.Workload.{
  validate_scale_params, replicas_or_zero, scale_audit, scale_result, finish_scale, scale_found,
  scale, determine_scale_action, resource, title,
}

-- A refusal before the cluster is asked for anything
abbrev pub IsInvalid : Outcome ScaleResult → Type 0
IsInvalid (returned (err e)) = service_type e ≡ some ErrorType.validation
IsInvalid o = ⊥

validate-IsNone :
    (kind : WorkloadKind) (namespace name executed_by : String)
    → namespace ≢ ""
    → name ≢ ""
    → executed_by ≢ ""
    → validate_scale_params kind namespace name executed_by ≡ none
unfolding validate_scale_params
validate-IsNone kind namespace name executed_by h k l =
    ground (arith, eq_iff namespace "", eq_iff name "", eq_iff executed_by "")

-- Either a validation error, or every parameter is given.
validate-cases :
    (kind : WorkloadKind) (namespace name executed_by : String)
    → ((e : GoError) × (validate_scale_params kind namespace name executed_by ≡ some e)
        × (service_type e ≡ some ErrorType.validation))
      ⊎ ((validate_scale_params kind namespace name executed_by ≡ none)
          × ((namespace ≢ "") × (name ≢ "") × (executed_by ≢ "")))
unfolding validate_scale_params new_validation_error service_type
validate-cases kind namespace name executed_by = elim (Bool-cases (namespace == "")) [
  | inl a ↦ inl (new_validation_error "namespace is required" nil, rw a, refl)
  | inr a ↦ elim (Bool-cases (name == "")) [
    | inl b ↦ inl (new_validation_error (resource kind <> " name is required") nil, rw (a, b), refl)
    | inr b ↦ elim (Bool-cases (executed_by == "")) [
      | inl c ↦
          inl
            (new_validation_error "executedBy is required for audit trail" nil, rw (a, b, c), refl)
      | inr c ↦ inr (
        rw (a, b, c),
        (
          (λ p. ground (arith, eq_iff namespace "", p)),
          (λ p. ground (arith, eq_iff name "", p)),
          (λ p. ground (arith, eq_iff executed_by "", p)),
        ),
      )
    ]
  ]
]

negative_test : (n : ℤ) → n <ℤ pos 0 → ltb_ℤ n (pos 0) ≡ true
negative_test n h = ground arith

not_negative_test : (n : ℤ) → pos 0 ≤ℤ n → ltb_ℤ n (pos 0) ≡ false
not_negative_test n h = ground arith

eqb_ℤ_refl : (n : ℤ) → eqb_ℤ n n ≡ true
eqb_ℤ_refl n = ground arith

-- The parameters that `scale` accepts
pub record IsAccepted (namespace name executed_by : String) (replicas : ℤ) : Type 0 where
  pub namespace_given : namespace ≢ ""
  pub name_given : name ≢ ""
  pub user_given : executed_by ≢ ""
  pub not_negative : pos 0 ≤ℤ replicas

module _ {Q : Type 0} (client : Client Q) (options : ServiceOptions) (kind : WorkloadKind)
    (namespace name executed_by : String) (replicas : ℤ) (s : State client.World) where
  abbrev pub scaled : Outcome ScaleResult × State client.World
  scaled = scale client options kind namespace name executed_by replicas s

  abbrev pub found : Result WorkloadObject
  found = (client.get_workload kind namespace name s.world).0

  abbrev pub after_get : State client.World
  after_get = record s { world = (client.get_workload kind namespace name s.world).1 }

  -- An empty namespace, name or user, or a negative number of replicas, gives a validation error;
  -- the cluster is not called, and nothing is audited.
  pub scale-IsInvalid :
      (namespace ≡ "") ⊎ (name ≡ "") ⊎ (executed_by ≡ "") ⊎ (replicas <ℤ pos 0)
      → IsInvalid scaled.0 × (scaled.1 ≡ s)
  unfolding scale new_validation_error service_type
  scale-IsInvalid h = elim (validate-cases kind namespace name executed_by) [
    | inl (e, invalid, kind_of) ↦ rw (invalid, scale) (kind_of, refl)
    | inr (valid, given) ↦ rw (valid, scale, negative_test replicas (negative given h)) (refl, refl)
  ]
    where
      negative :
          (namespace ≢ "") × (name ≢ "") × (executed_by ≢ "")
          → (namespace ≡ "") ⊎ (name ≡ "") ⊎ (executed_by ≡ "") ⊎ (replicas <ℤ pos 0)
          → replicas <ℤ pos 0
      negative (a, b, c) (inl p) = absurd (a p)
      negative (a, b, c) (inr (inl p)) = absurd (b p)
      negative (a, b, c) (inr (inr (inl p))) = absurd (c p)
      negative (a, b, c) (inr (inr (inr p))) = p

  scale_accepted :
      IsAccepted namespace name executed_by replicas
      → scaled ≡ scale_found client options kind namespace name executed_by replicas found after_get
  unfolding scale
  scale_accepted h = rw (
    validate-IsNone kind namespace name executed_by h.namespace_given h.name_given h.user_given,
    scale,
    not_negative_test replicas h.not_negative,
  )

  -- The object that the update sends: the one that was read, with the wanted replicas
  abbrev pub target : WorkloadObject → WorkloadObject
  target object = record object { replicas = some replicas }

  abbrev pub update_answer : WorkloadObject → Result WorkloadObject
  update_answer object = (client.update_workload kind namespace (target object) after_get.world).0

  abbrev pub status_of : Result WorkloadObject → String
  status_of (ok object) = "success"
  status_of (err e) = "failed"

  trace-finish_scale :
      (previous : ℤ) (answer : Result WorkloadObject) (t : State client.World)
      → options.enable_audit ≡ true
      → (finish_scale client options kind namespace name executed_by previous replicas answer
          t).1.trace
        ≡ scale_audit client options kind namespace name executed_by previous replicas
            (status_of answer)
          ∷ t.trace
  unfolding finish_scale
  trace-finish_scale previous (ok object) t on = rw on
  trace-finish_scale previous (err e) t on = rw on

  -- With auditing on, a scaling that changes the number of replicas makes one update, which differs
  -- from the object that was read in the replicas only, and writes one audit record after it, with
  -- both numbers, the user and the status of that update, whether it succeeded or failed.
  pub trace-scale_changed :
      (object : WorkloadObject)
      → IsAccepted namespace name executed_by replicas
      → found ≡ ok object
      → eqb_ℤ (replicas_or_zero object.replicas) replicas ≡ false
      → options.enable_audit ≡ true
      → scaled.1.trace
        ≡ scale_audit client options kind namespace name executed_by
            (replicas_or_zero object.replicas)
            replicas
            (status_of (update_answer object))
          ∷ updated kind namespace (target object)
          ∷ s.trace
  unfolding scale_found
  trace-scale_changed object h e changed on =
      rw (scale_accepted h, e, changed, scale_found)
        (trace-finish_scale (replicas_or_zero object.replicas) (update_answer object) _ on)

  -- An API that answers an update with the replicas that it was given never makes the scaling panic,
  -- and the result reports the old and the new number of replicas.
  pub result-scale_changed :
      (object answer : WorkloadObject)
      → IsAccepted namespace name executed_by replicas
      → found ≡ ok object
      → eqb_ℤ (replicas_or_zero object.replicas) replicas ≡ false
      → update_answer object ≡ ok answer
      → answer.replicas ≡ some replicas
      → scaled.0
        ≡ returned (
            ok (
              scale_result client options kind namespace name executed_by
                (title kind
                  <> " scaled successfully from "
                  <> show_int (replicas_or_zero object.replicas)
                  <> " to "
                  <> show_int replicas
                  <> " replicas")
                (determine_scale_action (replicas_or_zero object.replicas) replicas)
                (replicas_or_zero object.replicas)
                replicas))
  unfolding scale_found finish_scale
  result-scale_changed object answer h e changed updates echo =
      rw (scale_accepted h, e, changed, scale_found, updates, finish_scale, echo)

  -- Scaling to the number of replicas that the object already has writes nothing: neither an update
  -- nor an audit record. A missing number counts as 0.
  pub scale_unchanged :
      (object : WorkloadObject)
      → IsAccepted namespace name executed_by replicas
      → found ≡ ok object
      → replicas_or_zero object.replicas ≡ replicas
      → (scaled.1.trace ≡ s.trace)
        × (scaled.0
            ≡ returned (
                ok (
                  scale_result client options kind namespace name executed_by
                    "No scaling required - already at desired replicas" "no-change" replicas
                    replicas)))
  unfolding scale_found
  scale_unchanged object h e same =
      rw (scale_accepted h, e, same, scale_found, eqb_ℤ_refl replicas) (refl, refl)
