-- ===== src/Middleware/Builder/Tests.antt =====
-- The builder over texts for its parts.
use k8s_pod_manager_graphql.Prelude.{ℕ, String, ◌≡◌, Bool, none, List, [], ◌∷◌, map, All}
use k8s_pod_manager_graphql.Middleware.Builder.{
  Parts, debug, info, warn, Level, Call, with_rate_limiter, add_rate_limit, add_error_handling,
  add_logging, build,
}
use k8s_pod_manager_graphql.Middleware.Builder.Laws.{
  limits, errors, logs, kind_of, IsComplete, build-IsComplete,
}

abbrev name_of : Level → String
name_of debug = "debug"
name_of info = "info"
name_of warn = "warn"

abbrev parts : Parts String String ℕ Bool
parts = record {
  new_slog_logger = name_of;
  new_database_audit_logger = λ logger. "database";
  new_json_audit_logger = λ logger. "json";
  new_composite_audit_logger = λ loggers. "composite";
  new_in_memory_rate_limiter = λ limit window. limit;
  new_default_error_handler = λ logger trace mask. mask;
}

abbrev sequence : List (Call String String ℕ Bool ℕ)
sequence =
    with_rate_limiter none
    ∷ add_rate_limit []
    ∷ add_error_handling
    ∷ add_logging ("/health" ∷ [])
    ∷ []

build-IsComplete_example :
    All IsComplete (build parts sequence)
    × (map kind_of (build parts sequence) ≡ limits ∷ errors ∷ logs ∷ [])
build-IsComplete_example = build-IsComplete parts sequence
