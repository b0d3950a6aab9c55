-- ===== src/Services/Controller/Laws.antt =====
-- The types of controller, and what the detector answers.
use k8s_pod_manager_graphql.Prelude.{
  String, ◌≡◌, sym, subst, false, ◌==◌, eq_iff, Bool-cases, inl, inr,
}
use k8s_pod_manager_graphql.Services.Controller.{can_restart}

-- A type that no restart is for
pub record IsOther (t : String) : Type 0 where
  pub not_deployment : (t == "Deployment") ≡ false
  pub not_stateful_set : (t == "StatefulSet") ≡ false
  pub not_daemon_set : (t == "DaemonSet") ≡ false
  pub not_replica_set : (t == "ReplicaSet") ≡ false
  pub not_standalone : (t == "Standalone") ≡ false

-- To prove a statement for every type, prove it for the five types that can be restarted and for
-- any other.
pub type_cases {ℓ} :
    (P : String → Type ℓ)
    → P "Deployment"
    → P "StatefulSet"
    → P "DaemonSet"
    → P "ReplicaSet"
    → P "Standalone"
    → ((t : String) → IsOther t → P t)
    → (t : String) → P t
type_cases P a b c d e other t = elim (Bool-cases (t == "Deployment")) [
  | inl h ↦ subst P (sym ((eq_iff t "Deployment").0 h)) a
  | inr n1 ↦ elim (Bool-cases (t == "StatefulSet")) [
    | inl h ↦ subst P (sym ((eq_iff t "StatefulSet").0 h)) b
    | inr n2 ↦ elim (Bool-cases (t == "DaemonSet")) [
      | inl h ↦ subst P (sym ((eq_iff t "DaemonSet").0 h)) c
      | inr n3 ↦ elim (Bool-cases (t == "ReplicaSet")) [
        | inl h ↦ subst P (sym ((eq_iff t "ReplicaSet").0 h)) d
        | inr n4 ↦ elim (Bool-cases (t == "Standalone")) [
          | inl h ↦ subst P (sym ((eq_iff t "Standalone").0 h)) e
          | inr n5 ↦ other t (record {
            not_deployment = n1;
            not_stateful_set = n2;
            not_daemon_set = n3;
            not_replica_set = n4;
            not_standalone = n5;
          })
        ]
      ]
    ]
  ]
]

pub can_restart_of_IsOther : (t : String) → IsOther t → can_restart t ≡ false
unfolding can_restart
can_restart_of_IsOther t o =
    rw (o.not_deployment, o.not_stateful_set, o.not_daemon_set, o.not_replica_set, o.not_standalone)
