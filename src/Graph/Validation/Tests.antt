-- ===== src/Graph/Validation/Tests.antt =====
-- The checks of the input at concrete texts.
use Prim.Native.String.{String}
use k8s_pod_manager_graphql.Prelude.{◌≡◌, ◌↔◌, Option, none, List, [], ◌∷◌}
use k8s_pod_manager_graphql.Prelude.Int.{pos, ◌≤ℤ◌, wrap_int32}
use k8s_pod_manager_graphql.Graph.Validation.{
  validate_namespace, validate_pod_name, validate_scale_input,
}
use k8s_pod_manager_graphql.Graph.Validation.Laws.{
  IsNamespace, validate_namespace_iff, validate_scale_input_iff,
}

validate_namespace_iff_example :
    (validate_namespace "kube-public" ≡ none) ↔ IsNamespace "kube-public"
validate_namespace_iff_example = validate_namespace_iff "kube-public"

validate_scale_input_iff_example :
    (validate_scale_input (pos 1001) ≡ none)
    ↔ (((pos 0 ≤ℤ pos 1001) × (pos 1001 ≤ℤ pos 1000)) × (wrap_int32 (pos 1001) ≡ pos 1001))
validate_scale_input_iff_example = validate_scale_input_iff (pos 1001)

abbrev both : List (String → Option String)
both = validate_namespace ∷ validate_pod_name ∷ []
