-- ===== src/Graph/Audit/Laws.antt =====
-- What the audit loggers store.
use k8s_pod_manager_graphql.Prelude.{
  ℕ, suc, ◌+◌, String, ◌≡◌, refl, ap, ◌∙◌, Bool, true, false, Option, none, some, List, [], ◌∷◌,
  map, length, if◌then◌else◌, arith,
}
use k8s_pod_manager_graphql.Prelude.Int.{ℤ}
use k8s_pod_manager_graphql.Prelude.Text.{◌<>◌}
use k8s_pod_manager_graphql.Graph.Mutations.{
  MutationRecord, Resolver, ResolverState, Reply, data_of, error_of, crashed, get_user_or_default,
  restart_pod, delete_pod, scale_deployment, scale_stateful_set,
}
use k8s_pod_manager_graphql.Graph.Mutations.Laws.{is_data, IsAudited, mutations-IsAudited}
use k8s_pod_manager_graphql.Graph.Queries.{QueryRecord}
use k8s_pod_manager_graphql.Graph.Audit.{
  RequestContext, AuditLog, AuditState, Database, AuditLogger, SubscriptionRecord,
  extract_user_agent, extract_remote_addr, store, print, mutation_row, default_audit_logger,
  default_log_mutation, default_log_query, default_log_subscription, log_all,
  composite_audit_logger,
}

-- The database stores every row.
abbrev pub Stores : Database → Type 0
Stores none = ⊥
Stores (some create) = (row : AuditLog) → create row ≡ none

rows-store :
    (database : Database) (row : AuditLog) (s : AuditState)
    → Stores database
    → (store database row s).rows ≡ row ∷ s.rows
unfolding store
rows-store none row s h = absurd h
rows-store (some create) row s h = rw (h row, store) refl

-- Every operation adds `n` rows.
abbrev pub AddsRows : ℕ → AuditLogger → Type 0
AddsRows n logger =
    (ctx : RequestContext) (s : AuditState)
    → ((m : MutationRecord) → length (logger.log_mutation ctx m s).rows ≡ length s.rows + n)
      × ((q : QueryRecord) → length (logger.log_query ctx q s).rows ≡ length s.rows + n)
      × ((b : SubscriptionRecord)
          → length (logger.log_subscription ctx b s).rows ≡ length s.rows + n)

one_more :
    (database : Database) (row : AuditLog) (line : String) (s : AuditState)
    → Stores database
    → length (print line (store database row s)).rows ≡ length s.rows + 1
unfolding print
one_more database row line s h = ap length (rows-store database row s h) ∙ omega arith

-- The number of loggers that are enabled
abbrev pub enabled_count : List Bool → ℕ
enabled_count [] = 0
enabled_count (true ∷ flags) = suc (enabled_count flags)
enabled_count (false ∷ flags) = enabled_count flags

log_all-default :
    (database : Database) (call : AuditLogger → AuditState → AuditState) (flags : List Bool)
    (s : AuditState)
    → ((flag : Bool) (s' : AuditState)
        → length (call (default_audit_logger database flag) s').rows
          ≡ length s'.rows + enabled_count (flag ∷ []))
    → length (log_all call (map (default_audit_logger database) flags) s).rows
      ≡ length s.rows + enabled_count flags
unfolding log_all
log_all-default database call [] s h = omega arith
log_all-default database call (true ∷ flags) s h = omega (
  arith,
  log_all-default database call flags (call (default_audit_logger database true) s) h,
  h true s,
)
log_all-default database call (false ∷ flags) s h = omega (
  arith,
  log_all-default database call flags (call (default_audit_logger database false) s) h,
  h false s,
)

-- With a database that stores every row, a composite of default loggers adds one row for each of them that
-- is enabled, whatever the operation.
pub composite_audit_logger-AddsRows :
    (database : Database) (flags : List Bool)
    → Stores database
    → AddsRows
        (enabled_count flags)
        (composite_audit_logger (map (default_audit_logger database) flags))
unfolding composite_audit_logger default_audit_logger default_log_mutation default_log_query
    default_log_subscription
composite_audit_logger-AddsRows database flags h ctx s = (
  (λ m.
      log_all-default database (λ l. l.log_mutation ctx m) flags s
        (elim [ true ↦ λ s'. one_more database _ _ s' h | false ↦ λ s'. omega arith ])),
  (λ q.
      log_all-default database (λ l. l.log_query ctx q) flags s
        (elim [ true ↦ λ s'. one_more database _ _ s' h | false ↦ λ s'. omega arith ])),
  (λ b.
      log_all-default database (λ l. l.log_subscription ctx b) flags s
        (elim [ true ↦ λ s'. one_more database _ _ s' h | false ↦ λ s'. omega arith ])),
)

module _ (database : Database) (ctx : RequestContext) (st : AuditState) where
  -- The state of an enabled logger that was given the records of a log, the oldest first
  abbrev pub replay : List MutationRecord → AuditState
  replay [] = st
  replay (m ∷ log) = (default_audit_logger database true).log_mutation ctx m (replay log)

  rows-replay :
      (m : MutationRecord) (log : List MutationRecord)
      → Stores database
      → (replay (m ∷ log)).rows ≡ mutation_row ctx m ∷ (replay log).rows
  unfolding default_audit_logger default_log_mutation print
  rows-replay m log h = rows-store database (mutation_row ctx m) (replay log) h

  module _ {W : Type 0} (r : Resolver W) where
    -- The operation added one row for its target and its user, with the status 200 if the client got data
    -- and 500 if it got an error; a panic of the service added none.
    abbrev pub IsStored :
        {A : Type 0} (operation namespace name : String)
        → Option String
        → ResolverState W
        → Reply A × ResolverState W
        → Type 0
    IsStored operation namespace name user s (crashed text, s') =
        (replay s'.log).rows ≡ (replay s.log).rows
    IsStored operation namespace name user s (reply, s') =
        (error : String) × ((replay s'.log).rows
          ≡ (record {
            action = operation;
            resource_type = "pod";
            resource_name = name;
            namespace = namespace;
            user = get_user_or_default user;
            user_agent = extract_user_agent ctx;
            ip = extract_remote_addr ctx;
            method = "POST";
            path = "/graphql/mutation." <> operation;
            status_code = if is_data reply then 200 else 500;
            request_body = "{}";
            response = "{}";
            error = error;
          })
            ∷ (replay s.log).rows)

    IsStored-of_audited :
        {A : Type 0} (operation namespace name : String) (user : Option String)
        (s : ResolverState W) (answer : Reply A × ResolverState W)
        → Stores database
        → IsAudited r operation namespace name user s answer
        → IsStored operation namespace name user s answer
    unfolding mutation_row
    IsStored-of_audited operation namespace name user s (data_of a, s') h (e, k) =
        (e, ap (λ l. (replay l).rows) k ∙ rows-replay _ s.log h)
    IsStored-of_audited operation namespace name user s (error_of x, s') h (e, k) =
        (e, ap (λ l. (replay l).rows) k ∙ rows-replay _ s.log h)
    IsStored-of_audited operation namespace name user s (crashed text, s') h k =
        ap (λ l. (replay l).rows) k

    -- With a database that stores every row, each mutation adds exactly one row to the audit table, which
    -- calls its target a pod, whatever it is, and has the status 200 if the client got data, else 500.
    pub mutations-IsStored :
        (namespace name : String) (user : Option String) (replicas : ℤ) (s : ResolverState W)
        → Stores database
        → IsStored "restartPod" namespace name user s (restart_pod r namespace name user s)
          × IsStored "deletePod" namespace name user s (delete_pod r namespace name user s)
          × IsStored "scaleDeployment" namespace name user s
              (scale_deployment r namespace name user replicas s)
          × IsStored "scaleStatefulSet" namespace name user s
              (scale_stateful_set r namespace name user replicas s)
    mutations-IsStored namespace name user replicas s h =
        let audited = mutations-IsAudited r namespace name user replicas s in
        (
          IsStored-of_audited _ namespace name user s _ h audited.0,
          IsStored-of_audited _ namespace name user s _ h audited.1,
          IsStored-of_audited _ namespace name user s _ h audited.2,
          IsStored-of_audited _ namespace name user s _ h audited.3,
        )
