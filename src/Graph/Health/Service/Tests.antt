-- ===== src/Graph/Health/Service/Tests.antt =====
-- Readiness at three times, of which the database answers from the second on.
use k8s_pod_manager_graphql.Prelude.{ℕ, List, [], ◌∷◌, ltb}
use k8s_pod_manager_graphql.Graph.Health.Laws.{Request}
use k8s_pod_manager_graphql.Graph.Health.Service.{DatabaseState, connection, ClusterState, reached}
use k8s_pod_manager_graphql.Graph.Health.Service.Laws.{Moments}

abbrev database : ℕ → DatabaseState
database t = connection (ltb 10 t) (record { open_connections = 1; in_use = 0; idle = 1 })

abbrev cluster : ℕ → ClusterState
cluster t = reached "v1.29" "linux/amd64"

abbrev request_at : ℕ → Request Moments
request_at now = (now, record { pinged = now; asked = now; stamped = now })

abbrev requests : List (Request Moments)
requests =
    (5, record { pinged = 6; asked = 8; stamped = 9 })
    ∷ request_at 12
    ∷ (40, record { pinged = 41; asked = 41; stamped = 43 })
    ∷ []
