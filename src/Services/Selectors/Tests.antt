-- ===== src/Services/Selectors/Tests.antt =====
-- A selector of two labels.
use k8s_pod_manager_graphql.Prelude.{◌≡◌, refl, String, [], ◌∷◌}
use k8s_pod_manager_graphql.Prelude.GoMap.{GoMap}
use k8s_pod_manager_graphql.Services.Selectors.{selector, selector_loop}

abbrev labels : GoMap String
labels = ("app", "web") ∷ ("tier", "front") ∷ []

two_requirements : selector labels ≡ "app=web,tier=front"
unfolding selector selector_loop
two_requirements = refl
