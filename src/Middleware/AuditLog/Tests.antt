-- ===== src/Middleware/AuditLog/Tests.antt =====
-- A composite of a database that fails, a logger that does nothing and a database that counts its rows.
use k8s_pod_manager_graphql.Prelude.{ℕ, suc, String, refl, ◌≡◌, ◌↔◌, none, some, List, [], ◌∷◌, All}
use k8s_pod_manager_graphql.Middleware.Chain.Stack.{AuditEntry}
use k8s_pod_manager_graphql.Middleware.AuditLog.{
  AuditLogger, or_last, log_all, database_audit_logger, no_op_audit_logger, composite_audit_logger,
}
use k8s_pod_manager_graphql.Middleware.AuditLog.Laws.{
  answers, last_error, state_after, composite_audit_logger_lem,
}

abbrev entry : AuditEntry
entry = record {
  request_id = "r-1";
  method = "POST";
  path = "/graphql";
  ip = "10.0.0.1";
  user_agent = "curl";
  user = "ana";
  request_body = "{}";
  status_code = 200;
  error = "";
  action = "POST";
  resource_type = "graphql";
  resource_name = "";
  namespace = "";
}

abbrev loggers : List (AuditLogger ℕ String)
loggers =
    database_audit_logger (some (λ row n. (some "disk full", n)))
    ∷ no_op_audit_logger
    ∷ database_audit_logger (some (λ row n. (none, suc n)))
    ∷ []

-- The database after the one that fails still gets its row.
composite_run : composite_audit_logger loggers entry 0 ≡ (some "disk full", 1)
unfolding composite_audit_logger log_all or_last database_audit_logger no_op_audit_logger
composite_run = refl

composite_audit_logger_lem_example :
    ((composite_audit_logger loggers entry 0).1 ≡ state_after loggers entry 0)
    × ((composite_audit_logger loggers entry 0).0 ≡ last_error (answers loggers entry 0))
    × (((composite_audit_logger loggers entry 0).0 ≡ none)
        ↔ All (λ o. o ≡ none) (answers loggers entry 0))
composite_audit_logger_lem_example = composite_audit_logger_lem loggers entry 0
