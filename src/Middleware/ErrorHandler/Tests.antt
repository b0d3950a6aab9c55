-- ===== src/Middleware/ErrorHandler/Tests.antt =====
-- An internal error with a cause, and one without.
use k8s_pod_manager_graphql.Prelude.{String, ◌≡◌, refl, ◌⊎◌, true, false, Option, none, some, arith}
use k8s_pod_manager_graphql.Prelude.Int.{pos, ◌≤ℤ◌}
use k8s_pod_manager_graphql.Middleware.ErrorHandler.{
  AppError, answered, panicked, log_panics, convert_to_app_error, handle_error,
}
use k8s_pod_manager_graphql.Middleware.ErrorHandler.Laws.{
  converted, masked_outcome, masked_answer, handle_error_masked,
}

-- No error is an *AppError.
abbrev unknown : String → Option (AppError String)
unknown e = none

abbrev text : String → String
text e = e

is_internal :
    pos 500 ≤ℤ (converted unknown text true "/query" "POST" 9 "r1" "no route to host").status_code
unfolding convert_to_app_error
is_internal = ground arith

handle_error_masked_example :
    ((true ≡ true)
      × ((converted unknown text true "/query" "POST" 9 "r1" "no route to host").cause ≡ none)
      × (masked_outcome unknown text true "/query" "POST" 9 "r1" "no route to host"
          ≡ panicked "nil pointer dereference"))
    ⊎ (((true ≡ false)
          ⊎ ((c : String) × ((converted unknown text true "/query" "POST" 9 "r1"
                  "no route to host").cause
                ≡ some c)))
        × (masked_outcome unknown text true "/query" "POST" 9 "r1" "no route to host"
            ≡ answered (
                masked_answer unknown text true "/query" "POST" 9 "r1" "INTERNAL_ERROR"
                  "INTERNAL_ERROR"
                  (pos 500)
                  (some 9))))
unfolding convert_to_app_error
handle_error_masked_example =
    handle_error_masked unknown text true "/query" "POST" 9 "r1" "no route to host" is_internal

abbrev without_cause : AppError String
without_cause = record {
  type = "INTERNAL_ERROR";
  code = "X";
  message = "m";
  details = "d";
  fields = none;
  status_code = pos 503;
  cause = none;
  timestamp = none;
  request_id = "";
}

-- With a logger the handler panics.
uncaused :
    handle_error some (λ e. e.message) true true "/query" "POST" 9 "r1" without_cause
    ≡ panicked "nil pointer dereference"
unfolding handle_error log_panics convert_to_app_error
uncaused = refl
