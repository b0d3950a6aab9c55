-- ===== src/Graph/Responses.antt =====
-- graph/resolver.go, the maps that the adapter makes of results, and graph/schema.resolvers.go, the
-- responses that the mutations build from them.
pub mod Laws
use k8s_pod_manager_graphql.Prelude.{
  String, Bool, not, Option, none, some, [], ◌∷◌, ◌++◌, ◌==◌, if◌then◌else◌,
}
use k8s_pod_manager_graphql.Prelude.Int.{ℤ, pos}
use k8s_pod_manager_graphql.Prelude.GoMap.{GoMap, lookup}
use k8s_pod_manager_graphql.Services.Types.{ScaleResult}
use k8s_pod_manager_graphql.Services.Restart.{RestartResult}

-- An `interface{}` that the adapter puts into a map, with its dynamic type
pub data Value : Type 0 where
  text : String → Value
  flag : Bool → Value
  int32 : ℤ → Value
  restart_method : String → Value
  controller_type : String → Value
  details : GoMap String → Value

-- m[key].(string), m[key].(int32): none where the assertion fails
unfoldable pub as_string : Option Value → Option String
as_string (some (text s)) = some s
as_string _ = none

unfoldable pub as_int32 : Option Value → Option ℤ
as_int32 (some (int32 n)) = some n
as_int32 _ = none

-- An entry that is there only if its text is not empty
unfoldable pub text_unless_empty : (key value : String) → GoMap Value
text_unless_empty key value = if not (value == "") then (key, text value) ∷ [] else []

-- PodServiceAdapter.RestartPod: the map for a result
unfoldable pub restart_map : RestartResult → GoMap Value
restart_map r =
    (("message", text r.message)
      ∷ ("success", flag r.success)
      ∷ ("method", restart_method r.method)
      ∷ ("controller_type", controller_type r.controller_type)
      ∷ [])
    ++ (text_unless_empty "controller_name" r.controller_name
        ++ ((elim r.details [ none ↦ [] | some d ↦ ("details", details d) ∷ [] ])
            ++ text_unless_empty "warning" r.warning))

-- PodServiceAdapter.ScaleDeployment and ScaleStatefulSet: the map for a result
unfoldable pub scale_map : ScaleResult → GoMap Value
scale_map r =
    ("message", text r.message)
    ∷ ("success", flag r.success)
    ∷ ("previous_replicas", int32 r.previous_replicas)
    ∷ ("new_replicas", int32 r.new_replicas)
    ∷ ("resource_name", text r.resource_name)
    ∷ ("resource_type", text r.resource_type)
    ∷ []

pub record RestartPodResponse : Type 0 where
  pub message : String
  pub pod : String
  pub namespace : String
  pub type : String
  pub deployment : Option String
  pub statefulset : Option String
  pub controller : Option String
  pub warning : Option String

pub record DeletePodResponse : Type 0 where
  pub message : String
  pub pod : String
  pub namespace : String

pub record ScaleResponse : Type 0 where
  pub message : String
  pub namespace : String
  pub previous_replicas : ℤ
  pub new_replicas : ℤ
  pub action : String
  pub deployment : Option String
  pub statefulset : Option String

-- A string of the map, the default where the assertion fails
unfoldable pub string_or : String → Option String → String
string_or default none = default
string_or default (some s) = s

-- A pointer to a string of the map that is there and not empty
unfoldable pub non_empty : Option String → Option String
non_empty none = none
non_empty (some s) = if s == "" then none else some s

unfoldable pub int_or_zero : Option ℤ → ℤ
int_or_zero none = pos 0
int_or_zero (some n) = n

-- The response that the resolver RestartPod builds from the map
unfoldable pub restart_response : (namespace name : String) → GoMap Value → RestartPodResponse
restart_response namespace name m = record {
  message = string_or "Pod restart initiated" (as_string (lookup "message" m));
  pod = name;
  namespace = namespace;
  type = string_or "" (as_string (lookup "type" m));
  deployment = non_empty (as_string (lookup "deployment" m));
  statefulset = non_empty (as_string (lookup "statefulset" m));
  controller = non_empty (as_string (lookup "controller" m));
  warning = non_empty (as_string (lookup "warning" m));
}

-- The response that ScaleDeployment builds from the map
unfoldable pub scale_deployment_response : (namespace : String) → GoMap Value → ScaleResponse
scale_deployment_response namespace m = record {
  message = string_or "Deployment scaled successfully" (as_string (lookup "message" m));
  namespace = namespace;
  previous_replicas = int_or_zero (as_int32 (lookup "previous_replicas" m));
  new_replicas = int_or_zero (as_int32 (lookup "new_replicas" m));
  action = string_or "scale" (as_string (lookup "action" m));
  deployment = non_empty (as_string (lookup "deployment" m));
  statefulset = none;
}

-- The response that ScaleStatefulSet builds from the map
unfoldable pub scale_stateful_set_response : (namespace : String) → GoMap Value → ScaleResponse
scale_stateful_set_response namespace m = record {
  message = string_or "StatefulSet scaled successfully" (as_string (lookup "message" m));
  namespace = namespace;
  previous_replicas = int_or_zero (as_int32 (lookup "previous_replicas" m));
  new_replicas = int_or_zero (as_int32 (lookup "new_replicas" m));
  action = string_or "scale" (as_string (lookup "action" m));
  deployment = none;
  statefulset = non_empty (as_string (lookup "statefulset" m));
}
