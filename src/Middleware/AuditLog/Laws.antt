-- ===== src/Middleware/AuditLog/Laws.antt =====
-- What a composite audit logger does.
use k8s_pod_manager_graphql.Prelude.{
  ◌≡◌, refl, ◌∙◌, inl, inr, Option-cases, ◌↔◌, Option, none, some, List, [], ◌∷◌, All, arith,
}
use k8s_pod_manager_graphql.Middleware.Chain.Stack.{AuditEntry}
use k8s_pod_manager_graphql.Middleware.AuditLog.{
  AuditLogger, or_last, log_all, composite_audit_logger,
}

or_last-none :
    {E : Type 0} (last answer : Option E)
    → (or_last last answer ≡ none) ↔ ((last ≡ none) × (answer ≡ none))
unfolding or_last
or_last-none last none = ((λ h. (h, refl)), (λ h. h.0))
or_last-none last (some e) = ground arith

module _ {E : Type 0} where
  -- The last answer that is an error
  abbrev pub last_error : List (Option E) → Option E
  last_error [] = none
  last_error (answer ∷ rest) = elim (last_error rest) [ some e ↦ some e | none ↦ answer ]

  last_error-none : (list : List (Option E)) → last_error (none ∷ list) ≡ last_error list
  last_error-none list = elim (Option-cases (last_error list)) [
    | inr (e, h) ↦ rw h refl
    | inl h ↦ rw h refl
  ]

  last_error-or_last :
      (last answer : Option E) (rest : List (Option E))
      → last_error (or_last last answer ∷ rest) ≡ last_error (last ∷ answer ∷ rest)
  unfolding or_last
  last_error-or_last last answer rest = elim (Option-cases (last_error rest)) [
    | inr (e, h) ↦ rw h refl
    | inl h ↦ rw h (elim (Option-cases answer) [ inl k ↦ rw k refl | inr (e, k) ↦ rw k refl ])
  ]

module _ {S E : Type 0} where
  -- The answers of the loggers, each called in the state that the one before it left
  abbrev pub answers : List (AuditLogger S E) → AuditEntry → S → List (Option E)
  answers [] entry s = []
  answers (logger ∷ loggers) entry s = (logger entry s).0 ∷ answers loggers entry (logger entry s).1

  -- The state after all of them
  abbrev pub state_after : List (AuditLogger S E) → AuditEntry → S → S
  state_after [] entry s = s
  state_after (logger ∷ loggers) entry s = state_after loggers entry (logger entry s).1

  state-log_all :
      (loggers : List (AuditLogger S E)) (last : Option E) (entry : AuditEntry) (s : S)
      → (log_all last loggers entry s).1 ≡ state_after loggers entry s
  unfolding log_all
  state-log_all [] last entry s = refl
  state-log_all (logger ∷ loggers) last entry s =
      state-log_all loggers (or_last last (logger entry s).0) entry (logger entry s).1

  error-log_all :
      (loggers : List (AuditLogger S E)) (last : Option E) (entry : AuditEntry) (s : S)
      → ((log_all last loggers entry s).0 ≡ none)
        ↔ ((last ≡ none) × All (λ o. o ≡ none) (answers loggers entry s))
  unfolding log_all
  error-log_all [] last entry s = ((λ h. (h, tt)), (λ h. h.0))
  error-log_all (logger ∷ loggers) last entry s =
      let later =
        error-log_all loggers (or_last last (logger entry s).0) entry (logger entry s).1 in
      let here = or_last-none last (logger entry s).0 in
      (
        (λ h. ((here.0 (later.0 h).0).0, ((here.0 (later.0 h).0).1, (later.0 h).1))),
        (λ h. later.1 (here.1 (h.0, h.1.0), h.1.1)),
      )

  last-log_all :
      (loggers : List (AuditLogger S E)) (last : Option E) (entry : AuditEntry) (s : S)
      → (log_all last loggers entry s).0 ≡ last_error (last ∷ answers loggers entry s)
  unfolding log_all
  last-log_all [] last entry s = refl
  last-log_all (logger ∷ loggers) last entry s =
      last-log_all loggers (or_last last (logger entry s).0) entry (logger entry s).1
      ∙ last_error-or_last last (logger entry s).0 (answers loggers entry (logger entry s).1)

  -- A composite calls every logger, in order, whatever the ones before it answered. It gives the last of their
  -- errors, and so no error exactly if none of them does.
  pub composite_audit_logger_lem :
      (loggers : List (AuditLogger S E)) (entry : AuditEntry) (s : S)
      → ((composite_audit_logger loggers entry s).1 ≡ state_after loggers entry s)
        × ((composite_audit_logger loggers entry s).0 ≡ last_error (answers loggers entry s))
        × (((composite_audit_logger loggers entry s).0 ≡ none)
            ↔ All (λ o. o ≡ none) (answers loggers entry s))
  unfolding composite_audit_logger
  composite_audit_logger_lem loggers entry s = (
    state-log_all loggers none entry s,
    last-log_all loggers none entry s ∙ last_error-none (answers loggers entry s),
    (
      (λ h. ((error-log_all loggers none entry s).0 h).1),
      (λ h. (error-log_all loggers none entry s).1 (refl, h)),
    ),
  )
