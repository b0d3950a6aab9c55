-- ===== src/Middleware/Chain/Stack.antt =====
-- internal/middleware: RequestIDMiddleware, RecoveryMiddleware, ErrorMiddleware, LoggingMiddleware and
-- RateLimitMiddleware as middlewares of a chain, and the stacks of builder.go. A panic is not an action,
-- so the recovery only passes on; log lines and durations are left out, and the audit entry, which the
-- code writes in a goroutine, is written at once.
pub mod Laws
pub mod Tests
use Prim.Native.String.{String, len}
use k8s_pod_manager_graphql.Prelude.{
  ℕ, Bool, true, false, not, ◌&&◌, ◌||◌, ◌⊎◌, inl, inr, Option, none, some, List, [], ◌∷◌, ◌++◌,
  ◌==◌, ltb, any, if◌then◌else◌,
}
use k8s_pod_manager_graphql.Prelude.Int.{ℤ}
use k8s_pod_manager_graphql.Prelude.GoMap.{GoMap, lookup, insert}
use k8s_pod_manager_graphql.Middleware.RateLimiter.{RateLimitResult}
use k8s_pod_manager_graphql.Middleware.RateLimit.{
  RateLimiter, ResponseCall, set_header, limit_calls, denial_calls,
}
use k8s_pod_manager_graphql.Middleware.Chain.{Action, finish, call_next, Middleware}

-- HTTPRequest. `body` is what Body returns, "" for nil.
pub record HttpRequest : Type 0 where
  pub method : String
  pub path : String
  pub ip : String
  pub user_agent : String
  pub headers : GoMap String
  pub body : String

-- AuditEntry, without its times
pub record AuditEntry : Type 0 where
  pub request_id : String
  pub method : String
  pub path : String
  pub ip : String
  pub user_agent : String
  pub user : String
  pub request_body : String
  pub status_code : ℕ
  pub error : String
  pub action : String
  pub resource_type : String
  pub resource_name : String
  pub namespace : String

-- HTTPContext, with the limiter's state and the audit log: the values that are set, and the calls of the
-- response and the entries, the latest first
pub record Http (L : Type 0) : Type 0 where
  pub request : HttpRequest
  pub values : GoMap String
  pub calls : List ResponseCall
  pub limiter : L
  pub audit : List AuditEntry

-- A text of a map, "" for a missing key
unfoldable pub text_at : String → GoMap String → String
text_at key m = elim (lookup key m) [ none ↦ "" | some v ↦ v ]

-- extractRequestBody
unfoldable pub extract_request_body : HttpRequest → String
extract_request_body req =
    if not (req.method == "POST") && (not (req.method == "PUT") && not (req.method == "PATCH"))
    then ""
    else if ltb 10000 (len req.body)
    then "[BODY_TOO_LARGE]"
    else req.body

-- The action, the resource's type and its name
abbrev pub Parsed : Type 0
Parsed = String × (String × String)

-- parseAction
unfoldable pub parse_action : (method path : String) → Parsed
parse_action method path =
    if method == "POST" && path == "/graphql"
    then ("graphql_request", ("graphql", "query"))
    else if path == "/api/v1/health"
    then ("health_check", ("system", "health"))
    else if path == "/api/v1/ready"
    then ("readiness_check", ("system", "readiness"))
    else if path == "/api/v1/metrics"
    then ("metrics", ("system", "metrics"))
    else if path == "/api/v1/info"
    then ("info", ("system", "info"))
    else if path == "/"
    then ("playground", ("graphql", "playground"))
    else ("unknown", ("unknown", path))

-- The test of the map `skipPaths`
unfoldable pub is_skipped : List String → String → Bool
is_skipped skip_paths path = any (λ skipped. path == skipped) skip_paths

-- The audit entry of LoggingMiddleware.Handle; `text` is the method Error.
unfoldable pub audit_entry :
    {E : Type 0} → (text : E → String) → (request_id : String) → HttpRequest → Option E → AuditEntry
audit_entry text request_id req e =
    let user = text_at "X-User" req.headers in
    let parsed = parse_action req.method req.path in
    record {
      request_id = request_id;
      method = req.method;
      path = req.path;
      ip = req.ip;
      user_agent = req.user_agent;
      user = if user == "" then "anonymous" else user;
      request_body = extract_request_body req;
      status_code = elim e [ none ↦ 200 | some x ↦ 500 ];
      error = elim e [ none ↦ "" | some x ↦ text x ];
      action = parsed.0;
      resource_type = parsed.1.0;
      resource_name = parsed.1.1;
      namespace = "";
    }

abbrev pub health_paths : List String
health_paths = "/api/v1/health" ∷ "/api/v1/ready" ∷ []

module _ {L E : Type 0} where
  abbrev pub pass : Http L → Action (Http L) E
  pass s = call_next s finish

  -- RequestIDMiddleware.Handle; `generated` is the answer of the generator.
  unfoldable pub request_id_middleware : (header generated : String) → Middleware (Http L) E
  request_id_middleware header generated s =
      let sent = text_at header s.request.headers in
      let id = if sent == "" then generated else sent in
      pass (record s {
        calls = if sent == "" then set_header header id ∷ s.calls else s.calls;
        values = insert "request_id" id (insert "requestID" id s.values);
      })

  -- RecoveryMiddleware.Handle, where nothing panics
  unfoldable pub recovery_middleware : Middleware (Http L) E
  recovery_middleware s = pass s

  -- What ErrorMiddleware.Handle does with the answer of Next; `handle` is HandleError.
  unfoldable pub handled_error :
      (handle : E → Http L → Option E × Http L) → Option E → Http L → Action (Http L) E
  handled_error handle none s = finish none s
  handled_error handle (some e) s = finish (handle e s).0 (handle e s).1

  -- ErrorMiddleware.Handle
  unfoldable pub error_middleware :
      (handle : E → Http L → Option E × Http L) → Middleware (Http L) E
  error_middleware handle s = call_next s (handled_error handle)

  module _ (text : E → String) where
    -- What LoggingMiddleware.Handle does with the answer of Next
    unfoldable pub logged :
        (has_audit_logger : Bool) (request_id : String)
        → HttpRequest
        → Option E
        → Http L
        → Action (Http L) E
    logged has_audit_logger request_id req e s = finish e (record s {
      audit = if has_audit_logger then audit_entry text request_id req e ∷ s.audit else s.audit;
    })

    -- LoggingMiddleware.Handle
    unfoldable pub logging_middleware :
        (has_audit_logger : Bool) → (skip_paths : List String) → Middleware (Http L) E
    logging_middleware has_audit_logger skip_paths s =
        if is_skipped skip_paths s.request.path
        then pass s
        else call_next s (logged has_audit_logger (text_at "requestID" s.values) s.request)

  module _ (limiter : RateLimiter L E) (seconds : ℤ → String) where
    -- RateLimitMiddleware.Handle, after the limiter's answer
    unfoldable pub limited : (E ⊎ RateLimitResult) → Http L → Action (Http L) E
    limited (inl e) s = pass s
    limited (inr result) s =
        let s' = record s { calls = limit_calls result ++ s.calls } in
        if not result.allowed
        then finish none (record s' { calls = denial_calls seconds result ++ s'.calls })
        else pass s'

    -- RateLimitMiddleware.Handle, keyed by the address of the client
    unfoldable pub rate_limit_middleware : (skip_paths : List String) → Middleware (Http L) E
    rate_limit_middleware skip_paths s =
        if is_skipped skip_paths s.request.path
        then pass s
        else limited (limiter.allow s.request.ip s.limiter).0
            (record s { limiter = (limiter.allow s.request.ip s.limiter).1 })

    module _ (text : E → String) (handle : E → Http L → Option E × Http L)
        (generated : String) where
      -- What DefaultMiddlewareStack, DevelopmentMiddlewareStack and ProductionMiddlewareStack build; they
      -- differ in what is skipped, in the limit of the limiter and in the error handler.
      unfoldable pub middleware_stack : (skip_paths : List String) → List (Middleware (Http L) E)
      middleware_stack skip_paths =
          request_id_middleware "X-Request-ID" generated
          ∷ recovery_middleware
          ∷ error_middleware handle
          ∷ logging_middleware text true skip_paths
          ∷ rate_limit_middleware skip_paths
          ∷ []

      -- DefaultMiddlewareStack
      unfoldable pub default_middleware_stack :
          (skip_health_paths : Bool) → List (Middleware (Http L) E)
      default_middleware_stack skip_health_paths =
          middleware_stack (if skip_health_paths then health_paths else [])

      -- DevelopmentMiddlewareStack
      unfoldable pub development_middleware_stack : List (Middleware (Http L) E)
      development_middleware_stack = middleware_stack []

      -- ProductionMiddlewareStack
      unfoldable pub production_middleware_stack : List (Middleware (Http L) E)
      production_middleware_stack = middleware_stack health_paths
