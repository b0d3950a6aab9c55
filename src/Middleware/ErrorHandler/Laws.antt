-- ===== src/Middleware/ErrorHandler/Laws.antt =====
-- What a client can learn of an internal error.
use k8s_pod_manager_graphql.Prelude.{
  ℕ, String, ◌≡◌, refl, ◌⊎◌, inl, inr, Bool, true, false, Option, none, some, arith, if◌then◌else◌,
  Bool-cases, Option-cases,
}
use k8s_pod_manager_graphql.Prelude.Int.{ℤ, pos, leb_ℤ, ◌≤ℤ◌}
use k8s_pod_manager_graphql.Middleware.ErrorHandler.{
  AppError, Answer, Handled, answered, panicked, log_panics, convert_to_app_error, handle_error,
  panic_error, PanicValue, recovered,
}

module _ {E F : Type 0} (as_app_error : E → Option (AppError F)) (text : E → String)
    (has_logger : Bool) (path method : String) (now : ℕ) (request_id : String) where
  abbrev pub converted : E → AppError F
  converted = convert_to_app_error as_app_error text now request_id

  abbrev pub masked_outcome : E → Handled F
  masked_outcome = handle_error as_app_error text has_logger true path method now request_id

  -- An answer that depends on the type, the code, the status and the time only
  abbrev pub masked_answer : (type code : String) (status : ℤ) (time : Option ℕ) → Answer F
  masked_answer type code status time = record {
    status = status;
    body = record {
      error = "Internal server error";
      type = type;
      code = code;
      message = "An unexpected error occurred";
      details = "";
      fields = none;
      path = path;
      method = method;
      timestamp = time;
      request_id = request_id;
    };
  }

  -- With masking on, an internal error without a cause panics if there is a logger. Every other internal error
  -- gets an answer that tells its type, code, status and time, and nothing of its message, its details, its
  -- fields and its cause.
  pub handle_error_masked :
      (e : E)
      → pos 500 ≤ℤ (converted e).status_code
      → ((has_logger ≡ true)
          × ((converted e).cause ≡ none)
          × (masked_outcome e ≡ panicked "nil pointer dereference"))
        ⊎ (((has_logger ≡ false) ⊎ ((c : String) × ((converted e).cause ≡ some c)))
            × (masked_outcome e
                ≡ answered (
                    masked_answer
                      (converted e).type
                      (converted e).code
                      (converted e).status_code
                      (converted e).timestamp)))
  unfolding handle_error log_panics
  handle_error_masked e h =
      let internal : leb_ℤ (pos 500) (converted e).status_code ≡ true = ground arith in
      elim (Option-cases (converted e).cause) [
        | inr (c, caused) ↦ rw (caused, internal) (inr (inr (c, refl), refl))
        | inl uncaused ↦ elim (Bool-cases has_logger) [
          | inl on ↦ rw (uncaused, on, internal) (inl (refl, refl, refl))
          | inr off ↦ rw (uncaused, off, internal) (inr (inl refl, refl))
        ]
      ]

-- Without an error handler, or with one that masks, every panic gets the same answer: neither its text nor
-- the stack trace reaches the client, whether stack traces are included or not.
pub recovered_masked :
    (text : AppError String → String) (has_logger has_handler include include' : Bool)
    (path method : String) (now later : ℕ) (request_id stack_trace stack_trace' : String)
    (panic panic' : PanicValue)
    → (let handler : Option (AppError String → Handled String) =
          if has_handler
          then some (handle_error some text has_logger true path method later request_id)
          else none in
        recovered handler include stack_trace now request_id panic
        ≡ recovered handler include' stack_trace' now request_id panic')
unfolding recovered panic_error handle_error log_panics convert_to_app_error
recovered_masked text has_logger true include include' path method now later request_id stack_trace
      stack_trace' panic panic' =
    refl
recovered_masked text has_logger false include include' path method now later request_id stack_trace
      stack_trace' panic panic' =
    refl
