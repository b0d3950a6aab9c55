-- ===== src/Graph/Health.antt =====
-- graph/health.go: the cache in front of the health service. Its three methods are the same code over
-- three fields, so one cache stands for each.
pub mod Laws
pub mod Service
pub mod Tests
use k8s_pod_manager_graphql.Prelude.{ℕ, ◌-◌, Bool, Option, none, some, ltb, if◌then◌else◌}

-- The last response and its time
pub record Cache (A : Type 0) : Type 0 where
  pub last : Option A
  pub last_time : ℕ

-- NewCachedHealthService: nil, and the zero time
unfoldable pub new_cache : {A : Type 0} → Cache A
new_cache = record { last = none; last_time = 0 }

-- now.Sub(last) > ttl, for times that do not run backwards
unfoldable pub is_stale : {A : Type 0} → (ttl now : ℕ) → Cache A → Bool
is_stale ttl now c = ltb ttl (now - c.last_time)

-- GetHealth, GetReadiness and GetSystemInfo. `now` is the reading of the clock before everything else, and
-- `response` what the wrapped service answers, not nil, where it is called after that reading.
unfoldable pub get : {A : Type 0} → (ttl now : ℕ) → (response : A) → Cache A → A × Cache A
get ttl now response c = elim c.last [
  | none ↦ (response, record { last = some response; last_time = now })
  | some a ↦
      if is_stale ttl now c
      then (response, record { last = some response; last_time = now })
      else (a, c)
]
