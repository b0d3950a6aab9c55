-- ===== src/Graph/Mutations.antt =====
-- graph/schema.resolvers.go, the mutations, over the adapter of graph/resolver.go: validation, the
-- call of the service, the audit record and the response.
pub mod Laws
pub mod Tests
use k8s_pod_manager_graphql.Prelude.{String, Bool, true, false, Option, none, some, List, [], ◌∷◌}
use k8s_pod_manager_graphql.Prelude.Int.{ℤ, wrap_int32}
use k8s_pod_manager_graphql.Services.Errors.{GoError, error_text}
use k8s_pod_manager_graphql.Services.Types.{ScaleResult}
use k8s_pod_manager_graphql.Services.Client.{ok, err, Outcome, returned, panicked}
use k8s_pod_manager_graphql.Services.Restart.{RestartResult}
use k8s_pod_manager_graphql.Graph.Responses.{
  DeletePodResponse, RestartPodResponse, ScaleResponse, restart_map, restart_response,
  scale_deployment_response, scale_map, scale_stateful_set_response,
}
use k8s_pod_manager_graphql.Graph.Validation.{InputValidator}
use k8s_pod_manager_graphql.Graph.Errors.{GraphqlError}

-- The argument of LogMutation
pub record MutationRecord : Type 0 where
  pub operation : String
  pub namespace : String
  pub resource : String
  pub user : String
  pub success : Bool
  pub error : String

-- getUserOrDefault
unfoldable pub get_user_or_default : Option String → String
get_user_or_default (some user) = user
get_user_or_default none = "system"

-- The services behind the resolvers: what PodServiceInterface promises a mutation
pub record PodService (W : Type 0) : Type 0 where
  pub restart_pod : (namespace name user : String) → W → Outcome RestartResult × W
  pub delete_pod : (namespace name user : String) → W → Outcome (Unit {0}) × W
  pub scale_deployment :
      (namespace name : String) → ℤ → (user : String) → W → Outcome ScaleResult × W
  pub scale_stateful_set :
      (namespace name : String) → ℤ → (user : String) → W → Outcome ScaleResult × W

-- What the resolvers are injected with. The two methods of the error handler take an error that is
-- not nil; a validation error is its text.
pub record Resolver (W : Type 0) : Type 0 where
  pub pod_service : PodService W
  pub validator : InputValidator
  pub handle_validation_error : (text field : String) → GraphqlError
  pub handle_service_error : GoError → (operation : String) → GraphqlError

-- The state of the services, and the audit log, the latest record first
pub record ResolverState (W : Type 0) : Type 0 where
  pub world : W
  pub log : List MutationRecord

-- What the client gets, unless a panic of the service leaves the resolver
pub data Reply (A : Type 0) : Type 0 where
  data_of : A → Reply A
  error_of : GraphqlError → Reply A
  crashed : String → Reply A

-- The checks in the order in which a resolver makes them: the field of the first that fails
unfoldable pub first_failure : List (String × Option String) → Option (String × String)
first_failure [] = none
first_failure ((field, none) ∷ checks) = first_failure checks
first_failure ((field, some e) ∷ checks) = some (field, e)

module _ {W : Type 0} (r : Resolver W) where
  -- The shape of all four mutations: the first failing check is audited and returned; otherwise the
  -- service is called, and its outcome is audited and returned.
  module _ (operation namespace name : String) (user : Option String) where
    abbrev pub record_of : Bool → String → MutationRecord
    record_of success error = record {
      operation = operation;
      namespace = namespace;
      resource = name;
      user = get_user_or_default user;
      success = success;
      error = error;
    }

    unfoldable pub answer :
        {A B : Type 0} → (A → B) → List MutationRecord → Outcome A × W → Reply B × ResolverState W
    answer build log (returned (ok a), w) =
        (data_of (build a), record { world = w; log = record_of true "" ∷ log })
    answer build log (returned (err e), w) = (
      error_of (r.handle_service_error e operation),
      record { world = w; log = record_of false (error_text e) ∷ log },
    )
    answer build log (panicked text, w) = (crashed text, record { world = w; log = log })

    unfoldable pub mutation :
        {A B : Type 0}
        → Option (String × String)
        → (String → W → Outcome A × W)
        → (A → B)
        → ResolverState W
        → Reply B × ResolverState W
    mutation (some (field, e)) call build s =
        (error_of (r.handle_validation_error e field), record s { log = record_of false e ∷ s.log })
    mutation none call build s = answer build s.log (call (get_user_or_default user) s.world)

  module _ (namespace name : String) (user : Option String) where
    -- The checks of RestartPod and DeletePod
    unfoldable pub pod_checks : Option (String × String)
    pod_checks = first_failure (
        ("namespace", r.validator.namespace namespace)
        ∷ ("name", r.validator.pod_name name)
        ∷ ("user", r.validator.user_input user)
        ∷ [])

    -- The checks of ScaleDeployment and ScaleStatefulSet
    unfoldable pub scale_checks : (replicas : ℤ) → Option (String × String)
    scale_checks replicas = first_failure (
        ("namespace", r.validator.namespace namespace)
        ∷ ("name", r.validator.pod_name name)
        ∷ ("input", r.validator.scale_input replicas)
        ∷ ("user", r.validator.user_input user)
        ∷ [])

    unfoldable pub restart_pod : ResolverState W → Reply RestartPodResponse × ResolverState W
    restart_pod =
        mutation "restartPod" namespace name user pod_checks
          (r.pod_service.restart_pod namespace name)
          (λ result. restart_response namespace name (restart_map result))

    unfoldable pub delete_pod : ResolverState W → Reply DeletePodResponse × ResolverState W
    delete_pod =
        mutation "deletePod" namespace name user pod_checks
          (r.pod_service.delete_pod namespace name)
          (λ _. record { message = "Pod deleted successfully"; pod = name; namespace = namespace })

    unfoldable pub scale_deployment :
        (replicas : ℤ) → ResolverState W → Reply ScaleResponse × ResolverState W
    scale_deployment replicas =
        mutation "scaleDeployment" namespace name user (scale_checks replicas)
          (r.pod_service.scale_deployment namespace name (wrap_int32 replicas))
          (λ result. scale_deployment_response namespace (scale_map result))

    unfoldable pub scale_stateful_set :
        (replicas : ℤ) → ResolverState W → Reply ScaleResponse × ResolverState W
    scale_stateful_set replicas =
        mutation "scaleStatefulSet" namespace name user (scale_checks replicas)
          (r.pod_service.scale_stateful_set namespace name (wrap_int32 replicas))
          (λ result. scale_stateful_set_response namespace (scale_map result))
