-- ===== src/Graph/Health/Service.antt =====
-- graph/health.go: DefaultHealthService. The globals database.DB and kubernetes.Client, and what their
-- calls answer, are an environment; the text of the uptime is an argument.
pub mod Laws
pub mod Tests
use k8s_pod_manager_graphql.Prelude.{ℕ, String, Bool, true, false, ◌&&◌, if◌then◌else◌}

-- DatabaseInfo
pub record DatabaseInfo : Type 0 where
  pub open_connections : ℕ
  pub in_use : ℕ
  pub idle : ℕ

-- database.DB: nil, without a connection, or with one that answers a ping or not
pub data DatabaseState : Type 0 where
  no_database : DatabaseState
  no_connection : DatabaseState
  connection : (pings : Bool) → DatabaseInfo → DatabaseState

-- kubernetes.Client: nil, or one whose ServerVersion fails or answers a version and a platform
pub data ClusterState : Type 0 where
  no_client : ClusterState
  unreachable : ClusterState
  reached : (version platform : String) → ClusterState

pub record Environment : Type 0 where
  pub database : DatabaseState
  pub cluster : ClusterState

-- HealthResponse
pub record HealthResponse : Type 0 where
  pub status : String
  pub timestamp : ℕ
  pub uptime : String
  pub version : String

-- ReadinessCheck
pub record ReadinessCheck : Type 0 where
  pub database : String
  pub kubernetes : String

-- ReadinessResponse
pub record ReadinessResponse : Type 0 where
  pub status : String
  pub checks : ReadinessCheck
  pub timestamp : ℕ

-- SystemInfo
pub record SystemInfo : Type 0 where
  pub name : String
  pub version : String
  pub uptime : String

-- KubernetesInfo
pub record KubernetesInfo : Type 0 where
  pub version : String
  pub platform : String

-- InfoResponse
pub record InfoResponse : Type 0 where
  pub service : SystemInfo
  pub kubernetes : KubernetesInfo
  pub database : DatabaseInfo
  pub timestamp : ℕ

-- GetHealth
unfoldable pub get_health : (version uptime : String) (now : ℕ) → HealthResponse
get_health version uptime now = record {
  status = "healthy";
  timestamp = now;
  uptime = uptime;
  version = version;
}

-- The check of the database, and whether it keeps `allHealthy`
unfoldable pub check_database : DatabaseState → String × Bool
check_database no_database = ("not initialized", false)
check_database no_connection = ("unhealthy", false)
check_database (connection pings stats) = if pings then ("healthy", true) else ("unhealthy", false)

-- The check of the cluster
unfoldable pub check_kubernetes : ClusterState → String × Bool
check_kubernetes no_client = ("not initialized", false)
check_kubernetes unreachable = ("unhealthy", false)
check_kubernetes (reached version platform) = ("healthy", true)

-- GetReadiness. `env` holds what the ping and the call for the version answered, each when it was made;
-- `now` is the reading of the clock after both.
unfoldable pub get_readiness : Environment → (now : ℕ) → ReadinessResponse
get_readiness env now =
    let (database, database_healthy) = check_database env.database in
    let (kubernetes, kubernetes_healthy) = check_kubernetes env.cluster in
    record {
      status = if database_healthy && kubernetes_healthy then "ready" else "not ready";
      checks = record { database = database; kubernetes = kubernetes };
      timestamp = now;
    }

unfoldable pub kubernetes_info : ClusterState → KubernetesInfo
kubernetes_info no_client = record { version = "unknown"; platform = "unknown" }
kubernetes_info unreachable = record { version = "unknown"; platform = "unknown" }
kubernetes_info (reached version platform) = record { version = version; platform = platform }

unfoldable pub database_info : DatabaseState → DatabaseInfo
database_info no_database = record { open_connections = 0; in_use = 0; idle = 0 }
database_info no_connection = record { open_connections = 0; in_use = 0; idle = 0 }
database_info (connection pings stats) = stats

-- GetSystemInfo. `env` holds what each call answered when it was made; `now` is the reading of the clock
-- after them.
unfoldable pub get_system_info : Environment → (version uptime : String) (now : ℕ) → InfoResponse
get_system_info env version uptime now = record {
  service = record { name = "K8s Pod Manager API"; version = version; uptime = uptime };
  kubernetes = kubernetes_info env.cluster;
  database = database_info env.database;
  timestamp = now;
}
