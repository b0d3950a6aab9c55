-- ===== src/Middleware/Gin/Tests.antt =====
-- A gin whose handlers do nothing, and one that keeps the status only.
use k8s_pod_manager_graphql.Prelude.{ℕ, ◌≡◌, refl, String, true, Option, none, some, []}
use k8s_pod_manager_graphql.Middleware.RateLimit.{Exchange, handle}
use k8s_pod_manager_graphql.Middleware.RateLimit.Tests.{closed_door, no_text}
use k8s_pod_manager_graphql.Middleware.Chain.Stack.{Http}
use k8s_pod_manager_graphql.Middleware.Gin.{
  GinContext, err_incompatible_context, error_message, body, respond_all, to_gin_handler, finished,
}
use k8s_pod_manager_graphql.Middleware.Gin.Laws.{handle-respond_all}

abbrev gin : GinContext (Http ℕ)
gin = record {
  method = λ s. s.request.method;
  url_path = λ s. s.request.path;
  client_ip = λ s. s.request.ip;
  headers = λ s. s.request.headers;
  user_agent = λ s. s.request.user_agent;
  has_body = λ s. true;
  stored_body = λ s. none;
  header = λ name value s. s;
  status = λ code s. s;
  json_limits = λ code text retry_after limit s. s;
  abort_with_status_json = λ code error details s. s;
  next = λ s. s;
}

abbrev query : Http ℕ
query = record {
  request = record {
    method = "POST";
    path = "/graphql";
    ip = "10.0.0.1";
    user_agent = "curl";
    headers = [];
    body = "";
  };
  values = [];
  calls = [];
  limiter = 0;
  audit = [];
}

abbrev fix : String → Http ℕ → Option String × Http ℕ
fix e s = (some e, s)

abbrev status_only : GinContext ℕ
status_only = record {
  method = λ n. "POST";
  url_path = λ n. "/graphql";
  client_ip = λ n. "10.0.0.1";
  headers = λ n. [];
  user_agent = λ n. "";
  has_body = λ n. true;
  stored_body = λ n. none;
  header = λ name value n. n;
  status = λ code n. code;
  json_limits = λ code text retry_after limit n. code;
  abort_with_status_json = λ code error details n. code;
  next = λ n. n;
}

abbrev served : ℕ → Option String × ℕ
served n = (none, n)

abbrev exchange : Exchange ℕ ℕ
exchange = record { limiter = 0; world = 0; calls = [] }

handle-respond_all_example :
    respond_all status_only
      (handle closed_door [] no_text served "/graphql" "10.0.0.1" exchange).1.calls
      200
    ≡ 200
handle-respond_all_example =
    handle-respond_all closed_door [] no_text served status_only (λ n. n)
      (λ code text retry_after limit n. refl) "/graphql" "10.0.0.1" exchange 200 refl refl

incompatible :
    error_message err_incompatible_context ≡ "Context type is not compatible with this adapter"
unfolding error_message
incompatible = refl

-- A middleware that fails answers 500.
failed : to_gin_handler status_only (λ e. e) (λ n. (some "no", n)) 200 ≡ 500
unfolding to_gin_handler finished
failed = refl
