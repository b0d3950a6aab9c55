-- ===== src/Services/Errors.antt =====
-- internal/services/errors.go: the errors of the services, and the chain that `Unwrap` walks.
use k8s_pod_manager_graphql.Prelude.{String, Bool, false, Option, none, some, ◌==◌}
use k8s_pod_manager_graphql.Prelude.Text.{◌<>◌}

pub data ErrorType : Type 0 where
  validation not_found unauthorized internal conflict unavailable : ErrorType

-- The string of the constant
unfoldable pub type_text : ErrorType → String
type_text ErrorType.validation = "VALIDATION_ERROR"
type_text ErrorType.not_found = "NOT_FOUND"
type_text ErrorType.unauthorized = "UNAUTHORIZED"
type_text ErrorType.internal = "INTERNAL_ERROR"
type_text ErrorType.conflict = "CONFLICT"
type_text ErrorType.unavailable = "SERVICE_UNAVAILABLE"

-- A Go `error`. `external` is an error of a library, with the reason that the Kubernetes API gives
-- (empty if it gives none) and its text. `Cause` is an `error` that may be nil.
mutual
  pub data GoError : Type 0 where
    service : ErrorType → (message : String) → Cause → GoError
    pod_operation : (operation pod_name namespace reason : String) → Cause → GoError
    external : (reason text : String) → GoError

  pub data Cause : Type 0 where
    nil : Cause
    caused : GoError → Cause

-- Error(), of both types
unfoldable mutual
  pub error_text : GoError → String
  error_text (service ty message c) = type_text ty <> ": " <> message <> cause_text c
  error_text (pod_operation operation pod_name namespace reason c) =
      "pod operation '"
      <> operation
      <> "' failed for pod "
      <> namespace
      <> "/"
      <> pod_name
      <> ": "
      <> reason
      <> cause_text c
  error_text (external reason text) = text

  pub cause_text : Cause → String
  cause_text nil = ""
  cause_text (caused e) = " (caused by: " <> error_text e <> ")"

-- The error that an error wraps
unfoldable pub unwrap : GoError → Cause
unwrap (service ty message c) = c
unwrap (pod_operation operation pod_name namespace reason c) = c
unwrap (external reason text) = nil

unfoldable pub new_validation_error : String → Cause → GoError
new_validation_error message cause = service ErrorType.validation message cause

unfoldable pub new_not_found_error : (resource identifier : String) → GoError
new_not_found_error resource identifier =
    service ErrorType.not_found (resource <> " '" <> identifier <> "' not found") nil

unfoldable pub new_internal_error : String → Cause → GoError
new_internal_error message cause = service ErrorType.internal message cause

unfoldable pub new_conflict_error : String → GoError
new_conflict_error message = service ErrorType.conflict message nil

unfoldable pub new_unavailable_error : String → Cause → GoError
new_unavailable_error message cause = service ErrorType.unavailable message cause

unfoldable pub new_pod_operation_error :
    (operation pod_name namespace reason : String) → Cause → GoError
new_pod_operation_error operation pod_name namespace reason cause =
    pod_operation operation pod_name namespace reason cause

-- `errors.As` with a *ServiceError: the type of the first one in the chain
unfoldable mutual
  pub service_type : GoError → Option ErrorType
  service_type (service ty message c) = some ty
  service_type (pod_operation operation pod_name namespace reason c) = service_type_of c
  service_type (external reason text) = none

  pub service_type_of : Cause → Option ErrorType
  service_type_of nil = none
  service_type_of (caused e) = service_type e

unfoldable pub is_error_type : GoError → ErrorType → Bool
unfolding type_text
is_error_type err ty = elim (service_type err) [
  | none ↦ false
  | some t ↦ type_text t == type_text ty
]
