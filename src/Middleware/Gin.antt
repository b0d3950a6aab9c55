-- ===== src/Middleware/Gin.antt =====
-- internal/middleware/gin_adapter.go: what the middlewares see of gin. A *gin.Context is a parameter: its
-- state `G` and the methods that the adapter calls.
pub mod Laws
pub mod Tests
use k8s_pod_manager_graphql.Prelude.{
  ℕ, String, Bool, Option, none, some, List, [], ◌∷◌, if◌then◌else◌,
}
use k8s_pod_manager_graphql.Prelude.Int.{ℤ}
use k8s_pod_manager_graphql.Prelude.Text.{◌<>◌}
use k8s_pod_manager_graphql.Prelude.GoMap.{GoMap}
use k8s_pod_manager_graphql.Middleware.RateLimit.{ResponseCall, set_header, set_status, json_error}
use k8s_pod_manager_graphql.Middleware.Chain.Stack.{HttpRequest}

-- The methods of *gin.Context
pub record GinContext (G : Type 0) : Type 0 where
  pub method : G → String
  pub url_path : G → String
  pub client_ip : G → String
  pub headers : G → GoMap String
  pub user_agent : G → String
  -- whether Request.Body is not nil
  pub has_body : G → Bool
  -- Get("request_body"), where it is a []byte
  pub stored_body : G → Option String
  pub header : (name value : String) → G → G
  pub status : ℕ → G → G
  -- JSON of a map with the error's text and two numbers
  pub json_limits : (code : ℕ) (text : String) (retry_after : ℕ) (limit : ℤ) → G → G
  pub abort_with_status_json : (code : ℕ) (error details : String) → G → G
  pub next : G → G

-- MiddlewareError, whose cause is none for nil
pub record MiddlewareError : Type 0 where
  pub code : String
  pub message : String
  pub cause : Option String

-- MiddlewareError.Error
unfoldable pub error_message : MiddlewareError → String
error_message e = elim e.cause [ none ↦ e.message | some cause ↦ e.message <> ": " <> cause ]

abbrev pub err_incompatible_context : MiddlewareError
err_incompatible_context = record {
  code = "INCOMPATIBLE_CONTEXT";
  message = "Context type is not compatible with this adapter";
  cause = none;
}

-- GinMiddlewareAdapter.Handle; a context of another type than GinHTTPContext is `none`.
unfoldable pub adapted :
    {G : Type 0} → (handler : G → G) → Option G → Option MiddlewareError × Option G
adapted handler none = (some err_incompatible_context, none)
adapted handler (some g) = (none, some (handler g))

module _ {G : Type 0} (gin : GinContext G) where
  -- GinHTTPRequest.Body, "" for nil
  unfoldable pub body : G → String
  body g =
      if gin.has_body g then elim (gin.stored_body g) [ none ↦ "" | some bytes ↦ bytes ] else ""

  -- The methods of GinHTTPRequest
  unfoldable pub http_request : G → HttpRequest
  http_request g = record {
    method = gin.method g;
    path = gin.url_path g;
    ip = gin.client_ip g;
    user_agent = gin.user_agent g;
    headers = gin.headers g;
    body = body g;
  }

  -- The methods of GinHTTPResponse; JSON writes the status 200.
  unfoldable pub respond : ResponseCall → G → G
  respond (set_header name value) g = gin.header name value g
  respond (set_status code) g = gin.status code g
  respond (json_error text retry_after limit) g = gin.json_limits 200 text retry_after limit g

  -- The calls of a response, the latest first
  unfoldable pub respond_all : List ResponseCall → G → G
  respond_all [] g = g
  respond_all (call ∷ calls) g = respond call (respond_all calls g)

  -- GinHTTPContext.Next
  unfoldable pub gin_next : {E : Type 0} → G → Option E × G
  gin_next g = (none, gin.next g)

  -- ToGinHandler, after the call of Handle; `text` is the method Error.
  unfoldable pub finished : {E : Type 0} → (text : E → String) → Option E × G → G
  finished text (none, g) = g
  finished text (some e, g) = gin.abort_with_status_json 500 "Middleware error" (text e) g

  -- ToGinHandler
  unfoldable pub to_gin_handler : {E : Type 0} → (text : E → String) → (G → Option E × G) → G → G
  to_gin_handler text handle g = finished text (handle g)
