-- ===== src/Middleware/Builder.antt =====
-- internal/middleware/builder.go: MiddlewareBuilder and the three stacks that it builds. The types of its
-- parts and their constructors are parameters; a part that is nil is `none`.
pub mod Laws
pub mod Tests
use k8s_pod_manager_graphql.Prelude.{
  ℕ, ◌*◌, ◌^◌, String, Bool, true, false, Option, none, some, List, [], ◌∷◌, ◌++◌, if◌then◌else◌,
}
use k8s_pod_manager_graphql.Middleware.RateLimiter.{minute}

-- slog.Level
pub data Level : Type 0 where
  debug info warn : Level

-- The constructors of the parts: NewSlogLogger, NewDatabaseAuditLogger, NewJSONAuditLogger,
-- NewCompositeAuditLogger, NewInMemoryRateLimiter and NewDefaultErrorHandler
pub record Parts (L A R E : Type 0) : Type 0 where
  pub new_slog_logger : Level → L
  pub new_database_audit_logger : (logger : Option L) → A
  pub new_json_audit_logger : (logger : Option L) → A
  pub new_composite_audit_logger : List A → A
  pub new_in_memory_rate_limiter : (limit window : ℕ) → R
  pub new_default_error_handler :
      (logger : Option L) (include_stack_trace mask_internal_errs : Bool) → E

-- The middlewares, with their configurations
pub data Built (L A R E M : Type 0) : Type 0 where
  request_id : (header : String) → Built L A R E M
  logging : Option L → Option A → (skip_paths : List String) → Built L A R E M
  rate_limit : Option R → (skip_paths : List String) → Option L → Built L A R E M
  recovery : Option E → Option L → (include_stack_trace : Bool) → Built L A R E M
  error_handling : Option E → Built L A R E M
  custom : M → Built L A R E M

-- MiddlewareBuilder
pub record Builder (L A R E M : Type 0) : Type 0 where
  pub middlewares : List (Built L A R E M)
  pub logger : Option L
  pub audit_logger : Option A
  pub rate_limiter : Option R
  pub error_handler : Option E

-- NewMiddlewareBuilder
unfoldable pub new_middleware_builder : {L A R E M : Type 0} → Builder L A R E M
new_middleware_builder = record {
  middlewares = [];
  logger = none;
  audit_logger = none;
  rate_limiter = none;
  error_handler = none;
}

-- A call of a method of the builder
pub data Call (L A R E M : Type 0) : Type 0 where
  with_logger : Option L → Call L A R E M
  with_slog_logger : Level → Call L A R E M
  with_audit_logger : Option A → Call L A R E M
  with_database_audit_logger with_json_audit_logger : Call L A R E M
  with_composite_audit_logger : List A → Call L A R E M
  with_rate_limiter : Option R → Call L A R E M
  with_in_memory_rate_limiter : (limit window : ℕ) → Call L A R E M
  with_error_handler : Option E → Call L A R E M
  with_default_error_handler : (include_stack_trace mask_internal_errs : Bool) → Call L A R E M
  add_request_id : Call L A R E M
  add_logging add_rate_limit : (skip_paths : List String) → Call L A R E M
  add_recovery : (include_stack_trace : Bool) → Call L A R E M
  add_error_handling : Call L A R E M
  add_custom : M → Call L A R E M

abbrev pub health_paths : List String
health_paths = "/api/v1/health" ∷ "/api/v1/ready" ∷ []

-- A part that is given, else the default one
unfoldable pub or_else : {X : Type 0} → Option X → X → Option X
or_else none x = some x
or_else (some y) x = some y

module _ {L A R E M : Type 0} (parts : Parts L A R E) where
  abbrev append : Builder L A R E M → Built L A R E M → Builder L A R E M
  append b m = record b { middlewares = b.middlewares ++ m ∷ [] }

  -- AddRateLimit, with the limiter of the builder or the default one
  unfoldable pub add_limited : Builder L A R E M → (skip_paths : List String) → Builder L A R E M
  add_limited b skip_paths =
      let limiter = or_else b.rate_limiter (parts.new_in_memory_rate_limiter 100 minute) in
      append (record b { rate_limiter = limiter }) (rate_limit limiter skip_paths b.logger)

  -- AddErrorHandling
  unfoldable pub add_handled : Builder L A R E M → Builder L A R E M
  add_handled b =
      let handler = or_else b.error_handler (parts.new_default_error_handler b.logger false true) in
      append (record b { error_handler = handler }) (error_handling handler)

  -- The methods
  unfoldable pub call : Call L A R E M → Builder L A R E M → Builder L A R E M
  call (with_logger l) b = record b { logger = l }
  call (with_slog_logger level) b = record b { logger = some (parts.new_slog_logger level) }
  call (with_audit_logger a) b = record b { audit_logger = a }
  call with_database_audit_logger b = record b {
    audit_logger = some (parts.new_database_audit_logger b.logger);
  }
  call with_json_audit_logger b = record b {
    audit_logger = some (parts.new_json_audit_logger b.logger);
  }
  call (with_composite_audit_logger loggers) b = record b {
    audit_logger = some (parts.new_composite_audit_logger loggers);
  }
  call (with_rate_limiter r) b = record b { rate_limiter = r }
  call (with_in_memory_rate_limiter limit window) b = record b {
    rate_limiter = some (parts.new_in_memory_rate_limiter limit window);
  }
  call (with_error_handler e) b = record b { error_handler = e }
  call (with_default_error_handler include_stack_trace mask) b = record b {
    error_handler = some (parts.new_default_error_handler b.logger include_stack_trace mask);
  }
  call add_request_id b = append b (request_id "X-Request-ID")
  call (add_logging skip_paths) b = append b (logging b.logger b.audit_logger skip_paths)
  call (add_rate_limit skip_paths) b = add_limited b skip_paths
  call (add_recovery include_stack_trace) b =
      append b (recovery b.error_handler b.logger include_stack_trace)
  call add_error_handling b = add_handled b
  call (add_custom m) b = append b (custom m)

  -- Calls one after the other
  unfoldable pub calls : List (Call L A R E M) → Builder L A R E M → Builder L A R E M
  calls [] b = b
  calls (c ∷ cs) b = calls cs (call c b)

  -- Build
  unfoldable pub build : List (Call L A R E M) → List (Built L A R E M)
  build cs = (calls cs new_middleware_builder).middlewares

  -- DefaultMiddlewareStack
  unfoldable pub default_stack : (skip_health_paths : Bool) → List (Built L A R E M)
  default_stack skip_health_paths =
      let skipped = if skip_health_paths then health_paths else [] in
      build (
        with_slog_logger info
        ∷ with_database_audit_logger
        ∷ with_in_memory_rate_limiter 100 minute
        ∷ with_default_error_handler false true
        ∷ add_request_id
        ∷ add_recovery false
        ∷ add_error_handling
        ∷ add_logging skipped
        ∷ add_rate_limit skipped
        ∷ [])

  -- DevelopmentMiddlewareStack
  unfoldable pub development_stack : List (Built L A R E M)
  development_stack = build (
      with_slog_logger debug
      ∷ with_composite_audit_logger (
          parts.new_database_audit_logger none
          ∷ parts.new_json_audit_logger (some (parts.new_slog_logger debug))
          ∷ [])
      ∷ with_in_memory_rate_limiter 1000 minute
      ∷ with_default_error_handler true false
      ∷ add_request_id
      ∷ add_recovery true
      ∷ add_error_handling
      ∷ add_logging []
      ∷ add_rate_limit []
      ∷ [])

  -- ProductionMiddlewareStack
  unfoldable pub production_stack : List (Built L A R E M)
  production_stack = build (
      with_slog_logger warn
      ∷ with_database_audit_logger
      ∷ with_in_memory_rate_limiter 60 minute
      ∷ with_default_error_handler false true
      ∷ add_request_id
      ∷ add_recovery false
      ∷ add_error_handling
      ∷ add_logging health_paths
      ∷ add_rate_limit health_paths
      ∷ [])
