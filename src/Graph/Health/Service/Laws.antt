-- ===== src/Graph/Health/Service/Laws.antt =====
-- What a readiness response says of the database and the cluster.
use k8s_pod_manager_graphql.Prelude.{ℕ, ◌+◌, ◌≤◌, ◌≡◌, ◌↔◌, true, List}
use k8s_pod_manager_graphql.Graph.Health.Laws.{Request, IsOneOf}
use k8s_pod_manager_graphql.Graph.Health.Service.{
  DatabaseState, no_database, no_connection, connection, ClusterState, no_client, unreachable,
  reached, Environment, ReadinessResponse, get_readiness,
}

abbrev pub AnswersPing : DatabaseState → Type 0
AnswersPing no_database = ⊥
AnswersPing no_connection = ⊥
AnswersPing (connection pings stats) = pings ≡ true

abbrev pub AnswersVersion : ClusterState → Type 0
AnswersVersion no_client = ⊥
AnswersVersion unreachable = ⊥
AnswersVersion (reached version platform) = Unit

-- Both answered at the time.
abbrev pub IsReachable : Environment → Type 0
IsReachable env = AnswersPing env.database × AnswersVersion env.cluster

-- The times at which one call of GetReadiness pings the database, asks the cluster for its version, and reads
-- the clock for the response
pub record Moments : Type 0 where
  pub pinged : ℕ
  pub asked : ℕ
  pub stamped : ℕ

-- The call of a request follows the clock reading of the cache, in the order of the code.
abbrev pub IsTimed : Request Moments → Type 0
IsTimed (now, m) = (now ≤ m.pinged) × (m.pinged ≤ m.asked) × (m.asked ≤ m.stamped)

-- `database` and `cluster` are the states at each time.
module _ (database : ℕ → DatabaseState) (cluster : ℕ → ClusterState) (ttl : ℕ) where
  -- GetReadiness at these moments
  abbrev pub readiness_at : Moments → ReadinessResponse
  readiness_at m =
      get_readiness (record { database = database m.pinged; cluster = cluster m.asked }) m.stamped

  -- The response is the one to a request of the list at most `ttl` earlier: it bears the time at which that
  -- call read the clock, and says whether both answered that call, each at its moment.
  abbrev pub Tells : List (Request Moments) → ℕ × ReadinessResponse → Type 0
  Tells requests (now, r) =
      (q : Request Moments) × IsOneOf q requests
      × IsTimed q
      × (q.0 ≤ now)
      × (now ≤ q.0 + ttl)
      × (r.timestamp ≡ q.1.stamped)
      × ((r.status ≡ "ready")
          ↔ (AnswersPing (database q.1.pinged) × AnswersVersion (cluster q.1.asked)))

  abbrev IsMade : List (Request Moments) → Request Moments → Type 0
  IsMade requests q = IsOneOf q requests × IsTimed q
