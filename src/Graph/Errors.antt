-- ===== src/Graph/Errors.antt =====
-- graph/errors.go: the GraphQL errors that clients see.
pub mod Laws
pub mod Tests
use Prim.Native.Nat.{◌/◌, ◌%◌}
use Prim.Native.String.{String}
use Prim.Native.Char.{code}
use text.Mathlib.Text.{find?}
use k8s_pod_manager_graphql.Prelude.{
  ℕ, zero, suc, ◌+◌, Bool, true, false, not, Option, none, some, List, [], ◌∷◌, ◌++◌, length, ◌==◌,
  ltb, any, if◌then◌else◌,
}
use k8s_pod_manager_graphql.Prelude.Text.{◌<>◌}
use k8s_pod_manager_graphql.Services.Errors.{GoError, error_text}

-- The bytes of a character, by its code point
unfoldable pub utf8 : ℕ → List ℕ
utf8 c =
    if ltb c 128
    then c ∷ []
    else if ltb c 2048
    then (192 + c / 64) ∷ (128 + c % 64) ∷ []
    else if ltb c 65536
    then (224 + c / 4096) ∷ (128 + c / 64 % 64) ∷ (128 + c % 64) ∷ []
    else (240 + c / 262144) ∷ (128 + c / 4096 % 64) ∷ (128 + c / 64 % 64) ∷ (128 + c % 64) ∷ []

-- The bytes of a text, which is what Go's `len` counts and a slice of a string cuts
unfoldable pub bytes : String → List ℕ
unfolding utf8
bytes String.[] = []
bytes (String.◌∷◌ c s) = utf8 (code c) ++ bytes s

-- message[:n], where the text has that many bytes
unfoldable pub take : {A : Type 0} → ℕ → List A → List A
take zero xs = []
take (suc n) [] = []
take (suc n) (x ∷ xs) = x ∷ take n xs

-- gqlerror.Error with the two extensions that the program sets. The details are bytes, since a text
-- that is cut may end inside a character.
pub record GraphqlError : Type 0 where
  pub message : String
  pub code : String
  pub details : List ℕ

-- createGraphQLError
unfoldable pub create_graphql_error : (code message : String) (details : List ℕ) → GraphqlError
create_graphql_error code message details = record {
  message = message;
  code = code;
  details = details;
}

-- The predicates of k8s.io/apimachinery/pkg/api/errors
pub record ApiErrors : Type 0 where
  pub is_not_found : GoError → Bool
  pub is_unauthorized : GoError → Bool
  pub is_forbidden : GoError → Bool
  pub is_already_exists : GoError → Bool
  pub is_timeout : GoError → Bool

abbrev pub sensitive : List String
sensitive = "password" ∷ "token" ∷ "secret" ∷ "key" ∷ "auth" ∷ []

-- strings.Contains
abbrev pub contains : String → String → Bool
contains s t = elim (find? s t) [ none ↦ false | some i ↦ true ]

abbrev pub hidden_message : String
hidden_message = "Sensitive information in error message (details hidden)"

abbrev pub no_permissions : String
no_permissions = "Insufficient permissions"

abbrev pub not_allowed : String
not_allowed = "Operation not allowed"

abbrev pub timed_out : String
timed_out = "Request timed out"

module _ (to_lower : String → String) where
  -- sanitizeErrorMessage; `to_lower` is strings.ToLower.
  unfoldable pub sanitize_error_message : String → List ℕ
  sanitize_error_message message =
      if any (λ pattern. contains (to_lower message) pattern) sensitive
      then bytes hidden_message
      else if ltb 200 (length (bytes message))
      then take 197 (bytes message) ++ bytes "..."
      else bytes message

  -- HandleServiceError, of an error that is not nil
  unfoldable pub handle_service_error : ApiErrors → GoError → (operation : String) → GraphqlError
  handle_service_error api e operation =
      if api.is_not_found e
      then create_graphql_error "NOT_FOUND"
          ("Resource not found during " <> operation <> " operation") (bytes (error_text e))
      else if api.is_unauthorized e
      then create_graphql_error "UNAUTHORIZED"
          ("Unauthorized to perform " <> operation <> " operation") (bytes no_permissions)
      else if api.is_forbidden e
      then create_graphql_error "FORBIDDEN" ("Forbidden to perform " <> operation <> " operation")
          (bytes not_allowed)
      else if api.is_already_exists e
      then create_graphql_error "CONFLICT"
          ("Resource already exists during " <> operation <> " operation") (bytes (error_text e))
      else if api.is_timeout e
      then create_graphql_error "TIMEOUT" ("Operation " <> operation <> " timed out")
          (bytes timed_out)
      else create_graphql_error "SERVICE_ERROR"
          ("Service error during " <> operation <> " operation")
          (sanitize_error_message (error_text e))

-- HandleValidationError, of an error that is not nil, given by its text
unfoldable pub handle_validation_error : (text field : String) → GraphqlError
handle_validation_error text field =
    create_graphql_error "VALIDATION_ERROR" ("Validation failed for field '" <> field <> "'")
      (bytes text)

-- HandleNotFoundError; `title` is strings.Title.
unfoldable pub handle_not_found_error :
    (title : String → String) (resource namespace name : String) → GraphqlError
handle_not_found_error title resource namespace name =
    create_graphql_error "NOT_FOUND"
      (if not (namespace == "")
        then title resource <> " '" <> name <> "' not found in namespace '" <> namespace <> "'"
        else title resource <> " '" <> name <> "' not found")
      (bytes ("The requested " <> resource <> " does not exist"))

-- HandleInternalError, of an error that is not nil
unfoldable pub handle_internal_error : (context : String) → GraphqlError
handle_internal_error context =
    create_graphql_error "INTERNAL_ERROR" ("Internal error in " <> context)
      (bytes "An unexpected error occurred")

-- The loop of each method of ChainedErrorHandler: the first handler that handles the error, or the
-- default one.
unfoldable pub first_handled :
    {A : Type 0} → List (A → Option GraphqlError) → (A → GraphqlError) → A → GraphqlError
first_handled [] default a = default a
first_handled (handler ∷ handlers) default a = elim (handler a) [
  | some e ↦ e
  | none ↦ first_handled handlers default a
]
