-- ===== src/Graph/Health/Tests.antt =====
-- Requests at three times with a cache of ten.
use k8s_pod_manager_graphql.Prelude.{ℕ, ◌≡◌, refl, List, [], ◌∷◌}
use k8s_pod_manager_graphql.Graph.Health.{get, is_stale, new_cache}
use k8s_pod_manager_graphql.Graph.Health.Laws.{Request, responses}

abbrev same : ℕ → ℕ
same t = t

abbrev times : List (Request ℕ)
times = (5, 6) ∷ (12, 13) ∷ (40, 41) ∷ []

-- The second request is served from the cache.
cached : responses same 10 times new_cache ≡ (5, 6) ∷ (12, 6) ∷ (40, 41) ∷ []
unfolding get is_stale new_cache
cached = refl
