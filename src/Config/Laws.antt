-- ===== src/Config/Laws.antt =====
-- What Load guarantees.
use k8s_pod_manager_graphql.Prelude.{◌≡◌, length, if◌then◌else◌, arith}
use k8s_pod_manager_graphql.Config.{Environment, read, with_origins, with_kube_config, load}

-- A configuration that Load gives has one allowed origin if CORS is on, and none if not.
pub load-origins :
    (env : Environment)
    → length (load env).allowed_origins ≡ (if (load env).enable_cors then 1 else 0)
unfolding load with_origins with_kube_config read
load-origins env = ground arith
