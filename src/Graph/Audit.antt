-- ===== src/Graph/Audit.antt =====
-- graph/audit.go: the audit loggers of the resolvers, and the rows of internal/models/audit.go that they
-- store. The times of a row are left out. The database is a parameter: nil, or what Create answers for a
-- row, an error's text or none.
pub mod Laws
pub mod Tests
use k8s_pod_manager_graphql.Prelude.{
  ℕ, String, Bool, Option, none, some, List, [], ◌∷◌, if◌then◌else◌,
}
use k8s_pod_manager_graphql.Prelude.Text.{◌<>◌, show_nat}
use k8s_pod_manager_graphql.Graph.Mutations.{MutationRecord}
use k8s_pod_manager_graphql.Graph.Queries.{QueryRecord}

-- The arguments of LogSubscription
pub record SubscriptionRecord : Type 0 where
  pub operation : String
  pub namespace : String
  pub started : Bool

-- A value of a context: none, a text, or a value of another type
pub data ContextValue : Type 0 where
  absent : ContextValue
  text : String → ContextValue
  other : ContextValue

-- The values of a context that the loggers read
pub record RequestContext : Type 0 where
  pub user : ContextValue
  pub user_agent : ContextValue
  pub remote_addr : ContextValue

-- models.AuditLog
pub record AuditLog : Type 0 where
  pub action : String
  pub resource_type : String
  pub resource_name : String
  pub namespace : String
  pub user : String
  pub user_agent : String
  pub ip : String
  pub method : String
  pub path : String
  pub status_code : ℕ
  pub request_body : String
  pub response : String
  pub error : String

-- The rows that the database has stored and the lines on the standard output, the latest first
pub record AuditState : Type 0 where
  pub rows : List AuditLog
  pub lines : List String

abbrev pub Database : Type 0
Database = Option (AuditLog → Option String)

-- A text of the context, or the default for it
unfoldable pub text_or : (default : String) → ContextValue → String
text_or default absent = default
text_or default (text s) = s
text_or default other = default

-- extractUser, extractUserAgent, extractRemoteAddr
unfoldable pub extract_user : RequestContext → String
extract_user ctx = text_or "system" ctx.user

unfoldable pub extract_user_agent : RequestContext → String
extract_user_agent ctx = text_or "unknown" ctx.user_agent

unfoldable pub extract_remote_addr : RequestContext → String
extract_remote_addr ctx = text_or "unknown" ctx.remote_addr

-- database.DB.Create, where there is a database; a failure is logged.
unfoldable pub store : Database → AuditLog → AuditState → AuditState
store none row s = s
store (some create) row s = elim (create row) [
  | none ↦ record s { rows = row ∷ s.rows }
  | some e ↦ record s { lines = ("Failed to save audit log to database: " <> e) ∷ s.lines }
]

unfoldable pub print : String → AuditState → AuditState
print line s = record s { lines = line ∷ s.lines }

-- %t
unfoldable pub show_bool : Bool → String
show_bool b = if b then "true" else "false"

-- The rows of the three operations
unfoldable pub mutation_row : RequestContext → MutationRecord → AuditLog
mutation_row ctx m = record {
  action = m.operation;
  resource_type = "pod";
  resource_name = m.resource;
  namespace = m.namespace;
  user = m.user;
  user_agent = extract_user_agent ctx;
  ip = extract_remote_addr ctx;
  method = "POST";
  path = "/graphql/mutation." <> m.operation;
  status_code = if m.success then 200 else 500;
  request_body = "{}";
  response = "{}";
  error = m.error;
}

unfoldable pub query_row : RequestContext → QueryRecord → AuditLog
query_row ctx q = record {
  action = q.operation;
  resource_type = "query";
  resource_name = show_nat q.resource_count <> "_resources";
  namespace = q.namespace;
  user = extract_user ctx;
  user_agent = extract_user_agent ctx;
  ip = extract_remote_addr ctx;
  method = "POST";
  path = "/graphql/query." <> q.operation;
  status_code = 200;
  request_body = "{}";
  response = "{}";
  error = "";
}

-- The action of a subscription
unfoldable pub action_of : Bool → String
action_of started = if started then "started" else "stopped"

unfoldable pub subscription_row : RequestContext → SubscriptionRecord → AuditLog
subscription_row ctx b = record {
  action = b.operation <> "_" <> action_of b.started;
  resource_type = "subscription";
  resource_name = b.operation;
  namespace = b.namespace;
  user = extract_user ctx;
  user_agent = extract_user_agent ctx;
  ip = extract_remote_addr ctx;
  method = "GET";
  path = "/graphql/subscription." <> b.operation;
  status_code = 200;
  request_body = "{}";
  response = "{}";
  error = "";
}

-- AuditLogger
pub record AuditLogger : Type 0 where
  pub log_mutation : RequestContext → MutationRecord → AuditState → AuditState
  pub log_query : RequestContext → QueryRecord → AuditState → AuditState
  pub log_subscription : RequestContext → SubscriptionRecord → AuditState → AuditState

-- DefaultAuditLogger
module _ (database : Database) (enabled : Bool) where
  unfoldable pub default_log_mutation : RequestContext → MutationRecord → AuditState → AuditState
  default_log_mutation ctx m s =
      if enabled
      then print
          ("["
            <> (if m.success then "INFO" else "ERROR")
            <> "] GraphQL Mutation - Operation: "
            <> m.operation
            <> ", Namespace: "
            <> m.namespace
            <> ", Resource: "
            <> m.resource
            <> ", User: "
            <> m.user
            <> ", Success: "
            <> show_bool m.success
            <> ", Error: "
            <> m.error)
          (store database (mutation_row ctx m) s)
      else s

  unfoldable pub default_log_query : RequestContext → QueryRecord → AuditState → AuditState
  default_log_query ctx q s =
      if enabled
      then print
          ("[INFO] GraphQL Query - Operation: "
            <> q.operation
            <> ", Namespace: "
            <> q.namespace
            <> ", ResourceCount: "
            <> show_nat q.resource_count
            <> ", User: "
            <> extract_user ctx)
          (store database (query_row ctx q) s)
      else s

  unfoldable pub default_log_subscription :
      RequestContext → SubscriptionRecord → AuditState → AuditState
  default_log_subscription ctx b s =
      if enabled
      then print
          ("[INFO] GraphQL Subscription - Operation: "
            <> b.operation
            <> ", Namespace: "
            <> b.namespace
            <> ", Action: "
            <> action_of b.started
            <> ", User: "
            <> extract_user ctx)
          (store database (subscription_row ctx b) s)
      else s

  -- NewDefaultAuditLogger
  unfoldable pub default_audit_logger : AuditLogger
  default_audit_logger = record {
    log_mutation = default_log_mutation;
    log_query = default_log_query;
    log_subscription = default_log_subscription;
  }

-- NoOpAuditLogger
unfoldable pub no_op_audit_logger : AuditLogger
no_op_audit_logger = record {
  log_mutation = λ ctx m s. s;
  log_query = λ ctx q s. s;
  log_subscription = λ ctx b s. s;
}

-- The loop over the loggers of a composite
unfoldable pub log_all :
    (AuditLogger → AuditState → AuditState) → List AuditLogger → AuditState → AuditState
log_all call [] s = s
log_all call (logger ∷ loggers) s = log_all call loggers (call logger s)

-- CompositeAuditLogger
unfoldable pub composite_audit_logger : List AuditLogger → AuditLogger
composite_audit_logger loggers = record {
  log_mutation = λ ctx m. log_all (λ logger. logger.log_mutation ctx m) loggers;
  log_query = λ ctx q. log_all (λ logger. logger.log_query ctx q) loggers;
  log_subscription = λ ctx b. log_all (λ logger. logger.log_subscription ctx b) loggers;
}
