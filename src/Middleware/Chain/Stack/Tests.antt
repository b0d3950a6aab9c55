-- ===== src/Middleware/Chain/Stack/Tests.antt =====
-- A stack with a limiter that lets nobody through.
use k8s_pod_manager_graphql.Prelude.{ℕ, ◌≡◌, String, Option, none, some, []}
use k8s_pod_manager_graphql.Middleware.RateLimit.Tests.{closed_door, no_text}
use k8s_pod_manager_graphql.Middleware.Chain.{execute_chain}
use k8s_pod_manager_graphql.Middleware.Chain.Laws.{composed, RunsAtMostOnce}
use k8s_pod_manager_graphql.Middleware.Chain.Stack.{Http, health_paths}
use k8s_pod_manager_graphql.Middleware.Chain.Stack.Laws.{stack, middleware_stack-composed}

abbrev query : Http ℕ
query = record {
  request = record {
    method = "POST";
    path = "/query";
    ip = "10.0.0.1";
    user_agent = "curl";
    headers = [];
    body = "{}";
  };
  values = [];
  calls = [];
  limiter = 0;
  audit = [];
}

abbrev text : String → String
text e = e

abbrev handle_none : String → Http ℕ → Option String × Http ℕ
handle_none e s = (none, s)

abbrev served : Http ℕ → Option String × Http ℕ
served s = (none, s)

middleware_stack-composed_example :
    (execute_chain served
        (stack closed_door no_text text handle_none "1-2-3" served health_paths)
        query
      ≡ some (
          composed served
            (stack closed_door no_text text handle_none "1-2-3" served health_paths)
            query))
    × RunsAtMostOnce (λ handlers.
      composed handlers
        (stack closed_door no_text text handle_none "1-2-3" served health_paths)
        query)
middleware_stack-composed_example =
    middleware_stack-composed closed_door no_text text handle_none "1-2-3" served health_paths query
