-- ===== src/Graph/Errors/Laws.antt =====
-- What clients can and cannot learn from the errors.
use Prim.Native.String.{String}
use k8s_pod_manager_graphql.Prelude.{
  ℕ, zero, suc, ◌≤◌, ◌≡◌, refl, ◌⊎◌, inl, inr, Bool, true, false, arith, any, Bool-cases, ltb, List,
  [], ◌∷◌, length, length-append,
}
use k8s_pod_manager_graphql.Services.Errors.{
  GoError, Cause, service, pod_operation, external, nil, caused, new_not_found_error,
  new_conflict_error, new_validation_error, error_text,
}
use k8s_pod_manager_graphql.Graph.Errors.{
  GraphqlError, create_graphql_error, ApiErrors, sensitive, contains, hidden_message,
  no_permissions, not_allowed, timed_out, utf8, bytes, take, sanitize_error_message,
  handle_service_error,
}

length-take : {A : Type 0} → (n : ℕ) (xs : List A) → length (take n xs) ≤ n
unfolding take
length-take zero xs = ground arith
length-take (suc n) [] = ground arith
length-take (suc n) (x ∷ xs) = omega (arith, length-take n xs)

-- A sensitive word stands in the text, in any case of its letters.
abbrev pub is_sensitive : (to_lower : String → String) → String → Bool
is_sensitive to_lower text = any (λ pattern. contains (to_lower text) pattern) sensitive

-- The details are one of the texts that do not depend on the error.
abbrev pub IsFixed : List ℕ → Type 0
IsFixed details =
    (details ≡ bytes hidden_message)
    ⊎ (details ≡ bytes no_permissions)
    ⊎ (details ≡ bytes not_allowed)
    ⊎ (details ≡ bytes timed_out)

-- The details are short, and a fixed text unless the text of the error has no sensitive word.
abbrev pub IsShort : (sensitive_text : Bool) → List ℕ → Type 0
IsShort sensitive_text details =
    (length details ≤ 200) × (IsFixed details ⊎ (sensitive_text ≡ false))

-- Of an error that the API says is not found or exists already, the details may be the whole text; they are
-- short otherwise.
abbrev pub IsDetailed : ApiErrors → (sensitive_text : Bool) → GoError → GraphqlError → Type 0
IsDetailed api sensitive_text e answer =
    ((((answer.code ≡ "NOT_FOUND") × (api.is_not_found e ≡ true))
        ⊎ ((answer.code ≡ "CONFLICT") × (api.is_already_exists e ≡ true)))
      × (answer.details ≡ bytes (error_text e)))
    ⊎ IsShort sensitive_text answer.details

short_permissions : length (bytes no_permissions) ≤ 200
unfolding bytes utf8
short_permissions = ground arith

short_allowed : length (bytes not_allowed) ≤ 200
unfolding bytes utf8
short_allowed = ground arith

short_timed_out : length (bytes timed_out) ≤ 200
unfolding bytes utf8
short_timed_out = ground arith

short_hidden : length (bytes hidden_message) ≤ 200
unfolding bytes utf8
short_hidden = ground arith

short_dots : length (bytes "...") ≤ 3
unfolding bytes utf8
short_dots = ground arith

module _ (to_lower : String → String) where
  sanitize_short :
      (message : String)
      → is_sensitive to_lower message ≡ false
      → length (sanitize_error_message to_lower message) ≤ 200
  unfolding sanitize_error_message
  sanitize_short message h = elim (Bool-cases (ltb 200 (length (bytes message)))) [
    | inl long ↦
        rw (h, long, length-append) (omega (arith, length-take 197 (bytes message), short_dots))
    | inr short ↦ rw (h, short) (ground arith)
  ]

  sanitize-IsShort :
      (message : String)
      → IsShort (is_sensitive to_lower message) (sanitize_error_message to_lower message)
  unfolding sanitize_error_message
  sanitize-IsShort message = elim (Bool-cases (is_sensitive to_lower message)) [
    | inl h ↦ rw h (short_hidden, inl (inl refl))
    | inr h ↦ (sanitize_short message h, inr h)
  ]

  -- The error that a client sees of a failed service call, whatever the predicates of the API say
  -- of it: either its code is NOT_FOUND or CONFLICT, as they say that the error is not found or
  -- exists already, and its details are the whole text of the error, as long and as sensitive as
  -- that is; or its details have at most 200 bytes, and they are one of four fixed texts unless no
  -- sensitive word stands in the text of the error, in any case of its letters.
  pub handle_service_error_lem :
      (api : ApiErrors) (e : GoError) (operation : String)
      → IsDetailed api
          (is_sensitive to_lower (error_text e))
          e
          (handle_service_error to_lower api e operation)
  unfolding handle_service_error create_graphql_error
  handle_service_error_lem api e operation = elim (Bool-cases (api.is_not_found e)) [
    | inl h ↦ rw h (inl (inl (refl, refl), refl))
    | inr not_found ↦ elim (Bool-cases (api.is_unauthorized e)) [
      | inl h ↦ rw (not_found, h) (inr (short_permissions, inl (inr (inl refl))))
      | inr unauthorized ↦ elim (Bool-cases (api.is_forbidden e)) [
        | inl h ↦ rw (not_found, unauthorized, h) (inr (short_allowed, inl (inr (inr (inl refl)))))
        | inr forbidden ↦ elim (Bool-cases (api.is_already_exists e)) [
          | inl h ↦ rw (not_found, unauthorized, forbidden, h) (inl (inr (refl, refl), refl))
          | inr already_exists ↦ elim (Bool-cases (api.is_timeout e)) [
            | inl h ↦
                rw (not_found, unauthorized, forbidden, already_exists, h)
                  (inr (short_timed_out, inl (inr (inr (inr refl)))))
            | inr timeout ↦
                rw (not_found, unauthorized, forbidden, already_exists, timeout)
                  (inr (sanitize-IsShort (error_text e)))
          ]
        ]
      ]
    ]
  ]

-- The chain of the error holds an error of a library.
unfoldable mutual
  pub wraps_external : GoError → Bool
  wraps_external (service ty message c) = cause_external c
  wraps_external (pod_operation operation pod_name namespace reason c) = cause_external c
  wraps_external (external reason text) = true

  pub cause_external : Cause → Bool
  cause_external nil = false
  cause_external (caused e) = wraps_external e

-- What the predicates promise: they hold only of errors whose chain holds an API status.
pub record NeedsStatus (api : ApiErrors) (e : GoError) : Type 0 where
  pub not_found : wraps_external e ≡ false → api.is_not_found e ≡ false
  pub unauthorized : wraps_external e ≡ false → api.is_unauthorized e ≡ false
  pub forbidden : wraps_external e ≡ false → api.is_forbidden e ≡ false
  pub already_exists : wraps_external e ≡ false → api.is_already_exists e ≡ false
  pub timeout : wraps_external e ≡ false → api.is_timeout e ≡ false

abbrev pub code_of : (String → String) → ApiErrors → (operation : String) → GoError → String
code_of to_lower api operation e = (handle_service_error to_lower api e operation).code

module _ (to_lower : String → String) (api : ApiErrors)
    (needs_status : (e : GoError) → NeedsStatus api e) (operation : String) where
  code_of_own :
      (e : GoError) → wraps_external e ≡ false → code_of to_lower api operation e ≡ "SERVICE_ERROR"
  unfolding handle_service_error create_graphql_error
  code_of_own e h =
      let n = needs_status e in
      ground
        (arith, n.not_found h, n.unauthorized h, n.forbidden h, n.already_exists h, n.timeout h)

  -- A service error that wraps no error of the Kubernetes API is reported as SERVICE_ERROR,
  -- whatever its type: so are the services' own not-found, conflict and validation errors.
  pub service_errors_lose_type :
      (message : String) (resource identifier : String)
      → (code_of to_lower api operation (new_not_found_error resource identifier) ≡ "SERVICE_ERROR")
        × (code_of to_lower api operation (new_conflict_error message) ≡ "SERVICE_ERROR")
        × (code_of to_lower api operation (new_validation_error message nil) ≡ "SERVICE_ERROR")
  unfolding wraps_external cause_external new_not_found_error new_conflict_error
      new_validation_error
  service_errors_lose_type message resource identifier =
      (code_of_own _ refl, code_of_own _ refl, code_of_own _ refl)
