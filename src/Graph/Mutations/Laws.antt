-- ===== src/Graph/Mutations/Laws.antt =====
-- What every mutation does to the audit log and to the services.

use k8s_pod_manager_graphql.Prelude.{
  String, ◌≡◌, refl, subst, ◌≢◌, Bool, true, false, Option, none, some, [], ◌∷◌, arith,
}
use k8s_pod_manager_graphql.Prelude.Int.{ℤ, pos, ◌≤ℤ◌}
use k8s_pod_manager_graphql.Services.Client.{ok, err, Outcome, returned, panicked}
use k8s_pod_manager_graphql.Graph.Validation.{default_input_validator}
use k8s_pod_manager_graphql.Graph.Validation.Laws.{
  IsNamespace, IsPodName, validate_namespace_iff, validate_pod_name_iff, validate_scale_input_iff,
}
use k8s_pod_manager_graphql.Graph.Mutations.{
  get_user_or_default, Resolver, ResolverState, Reply, data_of, error_of, crashed, first_failure,
  answer, mutation, pod_checks, scale_checks, restart_pod, delete_pod, scale_deployment,
  scale_stateful_set,
}

abbrev pub is_data : {A : Type 0} → Reply A → Bool
is_data (data_of a) = true
is_data (error_of e) = false
is_data (crashed text) = false

module _ {W : Type 0} (r : Resolver W) where
  -- The log grew by one record of the operation, which names its target and its user, and claims
  -- success exactly if the client got data; a panic of the service left the log as it was.
  abbrev pub IsAudited :
      {A : Type 0} (operation namespace name : String)
      → Option String
      → ResolverState W
      → Reply A × ResolverState W
      → Type 0
  IsAudited operation namespace name user s (crashed text, s') = s'.log ≡ s.log
  IsAudited operation namespace name user s (reply, s') =
      (error : String) × (s'.log
        ≡ (record {
          operation = operation;
          namespace = namespace;
          resource = name;
          user = get_user_or_default user;
          success = is_data reply;
          error = error;
        })
          ∷ s.log)

  module _ (operation namespace name : String) (user : Option String) {A B : Type 0}
      (call : String → W → Outcome A × W) (build : A → B) (s : ResolverState W) where
    answer-IsAudited :
        (res : Outcome A × W)
        → IsAudited operation namespace name user s
            (answer r operation namespace name user build s.log res)
    unfolding answer
    answer-IsAudited (returned (ok a), w) = ("", refl)
    answer-IsAudited (returned (err e), w) = (_, refl)
    answer-IsAudited (panicked text, w) = refl

    mutation-IsAudited :
        (checks : Option (String × String))
        → IsAudited operation namespace name user s
            (mutation r operation namespace name user checks call build s)
    unfolding mutation
    mutation-IsAudited (some (field, e)) = (e, refl)
    mutation-IsAudited none = answer-IsAudited (call (get_user_or_default user) s.world)

  module _ (namespace name : String) (user : Option String) (replicas : ℤ)
      (s : ResolverState W) where
    -- Every mutation, whatever its input and whatever the services answer, writes exactly one audit
    -- record, for the user of the request or "system", and the record claims success exactly if the
    -- client got data. Only a service that panics leaves no record.
    pub mutations-IsAudited :
        IsAudited "restartPod" namespace name user s (restart_pod r namespace name user s)
        × IsAudited "deletePod" namespace name user s (delete_pod r namespace name user s)
        × IsAudited "scaleDeployment" namespace name user s
            (scale_deployment r namespace name user replicas s)
        × IsAudited "scaleStatefulSet" namespace name user s
            (scale_stateful_set r namespace name user replicas s)
    unfolding restart_pod delete_pod scale_deployment scale_stateful_set
    mutations-IsAudited = (
      mutation-IsAudited _ _ _ user _ _ s _,
      mutation-IsAudited _ _ _ user _ _ s _,
      mutation-IsAudited _ _ _ user _ _ s _,
      mutation-IsAudited _ _ _ user _ _ s _,
    )

first_failure-none :
    (a b c d : String) (x y z w : Option String)
    → first_failure ((a, x) ∷ (b, y) ∷ (c, z) ∷ (d, w) ∷ []) ≡ none
    → (x ≡ none) × (y ≡ none) × (z ≡ none)
unfolding first_failure
first_failure-none a b c d x y z w h = ground arith

abbrev pub IsUnserved : {A W : Type 0} → ResolverState W → Reply A × ResolverState W → Type 0
IsUnserved s (error_of e, s') = s'.world ≡ s.world
IsUnserved s (data_of a, s') = ⊥
IsUnserved s (crashed text, s') = ⊥

-- A request is in range if its target is valid and, for a scaling, its number is.
abbrev pub IsTarget : (namespace name : String) → Type 0
IsTarget namespace name = IsNamespace namespace × IsPodName name

module _ {W : Type 0} (r : Resolver W) (default : r.validator ≡ default_input_validator)
    (namespace name : String) (user : Option String) (s : ResolverState W) where
  refused :
      (operation : String) {A B : Type 0} (call : String → W → Outcome A × W) (build : A → B)
      (checks : Option (String × String))
      → checks ≢ none
      → IsUnserved s (mutation r operation namespace name user checks call build s)
  unfolding mutation
  refused operation call build none h = absurd (h refl)
  refused operation call build (some (field, e)) h = refl

  valid_namespace : r.validator.namespace namespace ≡ none → IsNamespace namespace
  unfolding default_input_validator
  valid_namespace h =
      (validate_namespace_iff namespace).0 (subst (λ v. v.namespace namespace ≡ none) default h)

  valid_pod_name : r.validator.pod_name name ≡ none → IsPodName name
  unfolding default_input_validator
  valid_pod_name h = (validate_pod_name_iff name).0 (subst (λ v. v.pod_name name ≡ none) default h)

  valid_scale_input :
      (replicas : ℤ)
      → r.validator.scale_input replicas ≡ none
      → (pos 0 ≤ℤ replicas) × (replicas ≤ℤ pos 1000)
  unfolding default_input_validator
  valid_scale_input replicas h =
      ((validate_scale_input_iff replicas).0
        (subst (λ v. v.scale_input replicas ≡ none) default h)).0

  pub pod_checks-IsTarget : pod_checks r namespace name user ≡ none → IsTarget namespace name
  unfolding pod_checks first_failure
  pod_checks-IsTarget h = (valid_namespace (ground arith), valid_pod_name (ground arith))

  pub scale_checks-IsTarget :
      (replicas : ℤ)
      → scale_checks r namespace name user replicas ≡ none
      → IsTarget namespace name × ((pos 0 ≤ℤ replicas) × (replicas ≤ℤ pos 1000))
  unfolding scale_checks
  scale_checks-IsTarget replicas h =
      let (n, p, i) = first_failure-none _ _ _ _ _ _ _ _ h in
      ((valid_namespace n, valid_pod_name p), valid_scale_input replicas i)

  -- With the default validator a target that is not a valid namespace and pod name reaches no
  -- service: a restart and a deletion leave the state of the services as it was, and the client gets
  -- an error.
  pub mutations_refused :
      ¬ IsTarget namespace name
      → IsUnserved s (restart_pod r namespace name user s)
        × IsUnserved s (delete_pod r namespace name user s)
  unfolding restart_pod delete_pod
  mutations_refused h = (
    refused _ _ _ _ (λ e. h (pod_checks-IsTarget e)),
    refused _ _ _ _ (λ e. h (pod_checks-IsTarget e)),
  )

  -- With the default validator a scaling of a target that is not a valid namespace and pod name, or
  -- to a number outside 0 to 1000, reaches no service: the state of the services is as it was, and
  -- the client gets an error.
  pub scalings_refused :
      (replicas : ℤ)
      → ¬ (IsTarget namespace name × ((pos 0 ≤ℤ replicas) × (replicas ≤ℤ pos 1000)))
      → IsUnserved s (scale_deployment r namespace name user replicas s)
        × IsUnserved s (scale_stateful_set r namespace name user replicas s)
  unfolding scale_deployment scale_stateful_set
  scalings_refused replicas h = (
    refused _ _ _ _ (λ e. h (scale_checks-IsTarget replicas e)),
    refused _ _ _ _ (λ e. h (scale_checks-IsTarget replicas e)),
  )
