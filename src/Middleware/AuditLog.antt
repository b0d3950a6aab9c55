-- ===== src/Middleware/AuditLog.antt =====
-- internal/middleware/audit_logger.go: the loggers that the logging middleware writes its entries to. The
-- database, the JSON encoder and the log are parameters over a state of their own; what a failed row leaves
-- in the log is left out, and so are the times of an entry.
pub mod Laws
pub mod Tests
use k8s_pod_manager_graphql.Prelude.{
  ℕ, String, ◌⊎◌, inl, inr, Option, none, some, List, [], ◌∷◌, ◌++◌, ◌==◌, if◌then◌else◌,
}
use k8s_pod_manager_graphql.Prelude.Text.{◌<>◌}
use k8s_pod_manager_graphql.Middleware.Chain.Stack.{AuditEntry}

-- models.AuditLog, as LogRequest fills it
pub record AuditRow : Type 0 where
  pub method : String
  pub path : String
  pub ip : String
  pub user_agent : String
  pub user : String
  pub request_body : String
  pub status_code : ℕ
  pub error : String
  pub action : String
  pub resource_type : String
  pub resource_name : String
  pub namespace : String

-- A value of the map that is written as JSON
pub data JsonValue : Type 0 where
  text : String → JsonValue
  number : ℕ → JsonValue

-- AuditLogger: the error, if there is one, and the state after the call
abbrev pub AuditLogger : Type 0 → Type 0 → Type 0
AuditLogger S E = AuditEntry → S → Option E × S

-- The row of an entry
unfoldable pub row_of : AuditEntry → AuditRow
row_of entry = record {
  method = entry.method;
  path = entry.path;
  ip = entry.ip;
  user_agent = entry.user_agent;
  user = entry.user;
  request_body = entry.request_body;
  status_code = entry.status_code;
  error = entry.error;
  action = entry.action;
  resource_type = entry.resource_type;
  resource_name = entry.resource_name;
  namespace = entry.namespace;
}

-- An entry of the map, where its text is not empty
unfoldable pub unless_empty : (key value : String) → List (String × JsonValue)
unless_empty key value = if value == "" then [] else (key, text value) ∷ []

-- The map of JSONAuditLogger.LogRequest, without the times
unfoldable pub json_entry : AuditEntry → List (String × JsonValue)
json_entry entry =
    (("request_id", text entry.request_id)
      ∷ ("method", text entry.method)
      ∷ ("path", text entry.path)
      ∷ ("ip", text entry.ip)
      ∷ ("user_agent", text entry.user_agent)
      ∷ ("user", text entry.user)
      ∷ ("status_code", number entry.status_code)
      ∷ ("action", text entry.action)
      ∷ ("resource_type", text entry.resource_type)
      ∷ ("resource_name", text entry.resource_name)
      ∷ ("namespace", text entry.namespace)
      ∷ [])
    ++ (unless_empty "request_body" entry.request_body ++ unless_empty "error" entry.error)

-- The error of a call, else the one before it
unfoldable pub or_last : {E : Type 0} → Option E → Option E → Option E
or_last last none = last
or_last last (some e) = some e

module _ {S E : Type 0} where
  -- DatabaseAuditLogger.LogRequest; the database may be nil, and answers a row with an error or none.
  unfoldable pub database_audit_logger :
      (database : Option (AuditRow → S → Option E × S)) → AuditLogger S E
  database_audit_logger none entry s = (none, s)
  database_audit_logger (some create) entry s = create (row_of entry) s

  -- NoOpAuditLogger.LogRequest
  unfoldable pub no_op_audit_logger : AuditLogger S E
  no_op_audit_logger entry s = (none, s)

  -- JSONAuditLogger.LogRequest, after the encoding
  unfoldable pub log_json :
      (info : List (String × String) → S → S) → AuditEntry → E ⊎ String → S → Option E × S
  log_json info entry (inl e) s = (some e, s)
  log_json info entry (inr json) s = (
    none,
    info
        (("audit_entry", json)
          ∷ ("request_id", entry.request_id)
          ∷ ("action", entry.action)
          ∷ ("resource", entry.resource_type <> "/" <> entry.resource_name)
          ∷ [])
        s,
  )

  -- JSONAuditLogger.LogRequest; `info` writes the fields of a line, and is none for a nil logger.
  unfoldable pub json_audit_logger :
      (marshal : List (String × JsonValue) → E ⊎ String)
      (info : Option (List (String × String) → S → S))
      → AuditLogger S E
  json_audit_logger marshal none entry s = (none, s)
  json_audit_logger marshal (some info) entry s = log_json info entry (marshal (json_entry entry)) s

  -- The loop of CompositeAuditLogger.LogRequest
  unfoldable pub log_all : (last : Option E) → List (AuditLogger S E) → AuditLogger S E
  log_all last [] entry s = (last, s)
  log_all last (logger ∷ loggers) entry s =
      log_all (or_last last (logger entry s).0) loggers entry (logger entry s).1

  -- CompositeAuditLogger.LogRequest
  unfoldable pub composite_audit_logger : List (AuditLogger S E) → AuditLogger S E
  composite_audit_logger loggers = log_all none loggers
