-- ===== src/Graph/Audit/Tests.antt =====
-- The rows that a database which stores every row gets.
use k8s_pod_manager_graphql.Prelude.{◌≡◌, refl, length, map, none, some, true, false, [], ◌∷◌}
use k8s_pod_manager_graphql.Prelude.Int.{pos}
use k8s_pod_manager_graphql.Graph.Mutations.{
  restart_pod, delete_pod, scale_deployment, scale_stateful_set,
}
use k8s_pod_manager_graphql.Graph.Mutations.Tests.{resolver, start}
use k8s_pod_manager_graphql.Graph.Audit.{
  RequestContext, absent, text, other, AuditState, Database, default_audit_logger,
  composite_audit_logger, log_all, default_log_query, store, print,
}
use k8s_pod_manager_graphql.Graph.Audit.Laws.{IsStored, mutations-IsStored}

abbrev ctx : RequestContext
ctx = record { user = text "ana"; user_agent = other; remote_addr = absent }

abbrev empty : AuditState
empty = record { rows = []; lines = [] }

abbrev database : Database
database = some (λ row. none)

mutations-IsStored_example :
    IsStored database ctx empty resolver "restartPod" "prod" "web-1" none start
      (restart_pod resolver "prod" "web-1" none start)
    × IsStored database ctx empty resolver "deletePod" "prod" "web-1" none start
        (delete_pod resolver "prod" "web-1" none start)
    × IsStored database ctx empty resolver "scaleDeployment" "prod" "web-1" none start
        (scale_deployment resolver "prod" "web-1" none (pos 5) start)
    × IsStored database ctx empty resolver "scaleStatefulSet" "prod" "web-1" none start
        (scale_stateful_set resolver "prod" "web-1" none (pos 5) start)
mutations-IsStored_example =
    mutations-IsStored database ctx empty resolver "prod" "web-1" none (pos 5) start (λ row. refl)

-- Two of the three loggers are enabled.
composite_run :
    length
      ((composite_audit_logger
          (map (default_audit_logger database) (true ∷ false ∷ true ∷ []))).log_query
        ctx
        (record { operation = "pods"; namespace = "prod"; resource_count = 3 })
        empty).rows
    ≡ 2
unfolding composite_audit_logger log_all default_audit_logger default_log_query store print
composite_run = refl
