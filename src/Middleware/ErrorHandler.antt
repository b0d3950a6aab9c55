-- ===== src/Middleware/ErrorHandler.antt =====
-- internal/middleware/error_handler.go: the response that a failed request gets. What the log says is left
-- out, but not that writing it can panic: SlogLogger.Error of logging.go calls a method of the error.
pub mod Laws
pub mod Tests
use k8s_pod_manager_graphql.Prelude.{
  ℕ, String, Bool, true, false, not, ◌==◌, ◌&&◌, ◌⊎◌, inl, inr, Option, none, some, if◌then◌else◌,
}
use k8s_pod_manager_graphql.Prelude.Int.{ℤ, pos, leb_ℤ}
use k8s_pod_manager_graphql.Prelude.Text.{◌<>◌}

-- AppError: what the response reads of it. `F` is the type of its map of fields, none for a nil map
-- and for the zero time.
pub record AppError (F : Type 0) : Type 0 where
  pub type : String
  pub code : String
  pub message : String
  pub details : String
  pub fields : Option F
  pub status_code : ℤ
  -- the text of the error Cause, none for nil
  pub cause : Option String
  pub timestamp : Option ℕ
  pub request_id : String

-- ErrorResponse
pub record ErrorResponse (F : Type 0) : Type 0 where
  pub error : String
  pub type : String
  pub code : String
  pub message : String
  pub details : String
  pub fields : Option F
  pub path : String
  pub method : String
  pub timestamp : Option ℕ
  pub request_id : String

-- isValidationError, isNotFoundError, isAuthorizationError, which are stubs in the code
abbrev pub is_validation_error : {E : Type 0} → E → Bool
is_validation_error e = false

abbrev pub is_not_found_error : {E : Type 0} → E → Bool
is_not_found_error e = false

abbrev pub is_authorization_error : {E : Type 0} → E → Bool
is_authorization_error e = false

-- The answer of a handler: the status and the JSON body
pub record Answer (F : Type 0) : Type 0 where
  pub status : ℤ
  pub body : ErrorResponse F

-- The end of HandleError: an answer, or a panic
pub data Handled (F : Type 0) : Type 0 where
  answered : Answer F → Handled F
  panicked : String → Handled F

abbrev pub is_nil : {A : Type 0} → Option A → Bool
is_nil none = true
is_nil (some a) = false

-- The log of HandleError: for an internal error SlogLogger.Error calls the method Error of the cause, which
-- panics for nil; for any other error SlogLogger.Warn calls none.
unfoldable pub log_panics : {F : Type 0} → (has_logger : Bool) → AppError F → Bool
log_panics has_logger a = is_nil a.cause && (has_logger && leb_ℤ (pos 500) a.status_code)

-- `as_app_error` is errors.As with an *AppError, `text` the method Error of an error of the type `E`.
module _ {E F : Type 0} (as_app_error : E → Option (AppError F)) (text : E → String) where
  -- An error that a case of the `switch` classifies
  abbrev pub classified :
      (type code message : String) (status now : ℕ) (request_id : String) → E → AppError F
  classified type code message status now request_id e = record {
    type = type;
    code = code;
    message = message;
    details = text e;
    fields = none;
    status_code = pos status;
    cause = some (text e);
    timestamp = some now;
    request_id = request_id;
  }

  -- convertToAppError; a zero timestamp is replaced by the clock.
  unfoldable pub convert_to_app_error : (now : ℕ) (request_id : String) → E → AppError F
  convert_to_app_error now request_id e = elim (as_app_error e) [
    | some a ↦ record a {
      request_id = request_id;
      timestamp = elim a.timestamp [ none ↦ some now | some t ↦ some t ];
    }
    | none ↦
        if is_validation_error e
        then classified "VALIDATION_ERROR" "VALIDATION_FAILED" "Request validation failed" 400 now
            request_id e
        else if is_not_found_error e
        then classified "NOT_FOUND" "RESOURCE_NOT_FOUND" "The requested resource was not found" 404
            now request_id e
        else if is_authorization_error e
        then classified "AUTHORIZATION_ERROR" "AUTHORIZATION_FAILED" "Access denied" 403 now
            request_id e
        else classified "INTERNAL_ERROR" "INTERNAL_ERROR" "Internal server error" 500 now request_id
            e
  ]

  -- HandleError, of an error that is not nil; the logger is nil or a SlogLogger.
  unfoldable pub handle_error :
      (has_logger mask_internal_errs : Bool) (path method : String) (now : ℕ) (request_id : String)
      → E
      → Handled F
  handle_error has_logger mask_internal_errs path method now request_id e =
      let a = convert_to_app_error now request_id e in
      let masked = mask_internal_errs && leb_ℤ (pos 500) a.status_code in
      if log_panics has_logger a
      then panicked "nil pointer dereference"
      else answered (record {
        status = a.status_code;
        body = record {
          error = if masked then "Internal server error" else a.message;
          type = a.type;
          code = a.code;
          message = if masked then "An unexpected error occurred" else a.message;
          details = if masked then "" else a.details;
          fields = if masked then none else a.fields;
          path = path;
          method = method;
          timestamp = a.timestamp;
          request_id = request_id;
        };
      })

-- The AppError that RecoveryMiddleware.Handle makes of a panic: `panic` is the text of its error and
-- `stack_trace` the captured stack, which is the map's only field; `now` is the clock.
unfoldable pub panic_error :
    (include_stack_trace : Bool) (panic stack_trace : String) (now : ℕ) (request_id : String)
    → AppError String
panic_error include_stack_trace panic stack_trace now request_id =
    let stack = if include_stack_trace then stack_trace else "" in
    record {
      type = "PANIC_RECOVERED";
      code = "PANIC_RECOVERED";
      message = "An unexpected error occurred";
      details = panic;
      fields = if not (stack == "") then some stack else none;
      status_code = pos 500;
      cause = some panic;
      timestamp = some now;
      request_id = request_id;
    }

-- A value that was passed to panic: an error, a text, or another value as `%v` prints it
pub data PanicValue : Type 0 where
  an_error a_text another : (text : String) → PanicValue

-- The text of the error that RecoveryMiddleware.Handle makes of it
unfoldable pub panic_text : PanicValue → String
panic_text (an_error text) = text
panic_text (a_text text) = text
panic_text (another text) = "panic: " <> text

-- The answer where there is no error handler
pub record Fallback : Type 0 where
  pub status : ℤ
  pub error : String
  pub message : String
  pub request_id : String

-- RecoveryMiddleware.Handle for a panic: the answer of the error handler, where there is one. `handle` is
-- HandleError.
unfoldable pub recovered :
    (handle : Option (AppError String → Handled String)) (include_stack_trace : Bool)
    (stack_trace : String) (now : ℕ) (request_id : String)
    → PanicValue
    → Handled String ⊎ Fallback
recovered none include_stack_trace stack_trace now request_id panic = inr (record {
  status = pos 500;
  error = "Internal server error";
  message = "An unexpected error occurred";
  request_id = request_id;
})
recovered (some handle) include_stack_trace stack_trace now request_id panic =
    inl (handle (panic_error include_stack_trace (panic_text panic) stack_trace now request_id))
