-- ===== src/Graph/Validation.antt =====
-- graph/validation.go: the checks of the input of a GraphQL request. A failed check is its message.
pub mod Laws
pub mod Tests
use Prim.Native.Char.{code}
use Prim.Native.String.{String, len}
use text.Mathlib.Text.{starts_with}
use k8s_pod_manager_graphql.Prelude.{
  ℕ, Bool, true, false, ◌&&◌, ◌||◌, Option, none, some, List, [], ◌∷◌, ◌==◌, ltb, leb, eqb, any,
  if◌then◌else◌,
}
use k8s_pod_manager_graphql.Prelude.Text.{◌<>◌, show_int, show_nat}
use k8s_pod_manager_graphql.Prelude.Int.{ℤ, pos, ltb_ℤ}

-- The code points of a text
abbrev pub codes : String → List ℕ
codes String.[] = []
codes (String.◌∷◌ c s) = code c ∷ codes s

-- [a-z0-9]
unfoldable pub is_alphanumeric : ℕ → Bool
is_alphanumeric c = leb b'a' c && leb c b'z' || leb b'0' c && leb c b'9'

-- [a-z0-9\-]
unfoldable pub is_name_char : ℕ → Bool
is_name_char c = is_alphanumeric c || eqb c b'-'

-- [a-z0-9\-]*[a-z0-9]$: at each character the star ends here, or takes it and goes on.
unfoldable pub matches_body : List ℕ → Bool
matches_body [] = false
matches_body (c ∷ []) = is_alphanumeric c
matches_body (c ∷ d ∷ cs) = is_name_char c && matches_body (d ∷ cs)

-- ([a-z0-9\-]*[a-z0-9])?$
unfoldable pub matches_tail : List ℕ → Bool
matches_tail [] = true
matches_tail (c ∷ cs) = matches_body (c ∷ cs)

-- kubernetesNameRegex, ^[a-z0-9]([a-z0-9\-]*[a-z0-9])?$
unfoldable pub matches_name : List ℕ → Bool
matches_name [] = false
matches_name (c ∷ cs) = is_alphanumeric c && matches_tail cs

abbrev pub max_short_name_length : ℕ
max_short_name_length = 63

abbrev pub reserved_namespaces : List String
reserved_namespaces = "kube-system" ∷ "kube-public" ∷ "kube-node-lease" ∷ []

abbrev pub dangerous_prefixes : List String
dangerous_prefixes = "kube-" ∷ "system-" ∷ []

-- The first of the prefixes that the name starts with
unfoldable pub bad_prefix : String → List String → Option String
bad_prefix name [] = none
bad_prefix name (prefix ∷ rest) =
    if starts_with name prefix then some prefix else bad_prefix name rest

-- ValidateNamespace
unfoldable pub validate_namespace : String → Option String
validate_namespace namespace =
    if namespace == ""
    then some "namespace cannot be empty"
    else if ltb max_short_name_length (len namespace)
    then some ("namespace name too long: " <> show_nat (len namespace) <> " characters (max 63)")
    else if matches_name (codes namespace)
    then (if any (λ reserved. namespace == reserved) reserved_namespaces
        then some ("cannot perform operations on reserved namespace '" <> namespace <> "'")
        else none)
    else some ("invalid namespace name '" <> namespace <> "': must be a valid DNS-1123 subdomain")

-- ValidatePodName
unfoldable pub validate_pod_name : String → Option String
validate_pod_name name =
    if name == ""
    then some "pod name cannot be empty"
    else if ltb max_short_name_length (len name)
    then some ("pod name too long: " <> show_nat (len name) <> " characters (max 63)")
    else if matches_name (codes name)
    then elim (bad_prefix name dangerous_prefixes) [
      | none ↦ none
      | some prefix ↦
          some ("pod name '" <> name <> "' starts with reserved prefix '" <> prefix <> "'")
    ]
    else some ("invalid pod name '" <> name <> "': must be a valid DNS-1123 subdomain")

-- ValidateScaleInput, of the field Replicas
unfoldable pub validate_scale_input : ℤ → Option String
validate_scale_input replicas =
    if ltb_ℤ replicas (pos 0)
    then some ("replica count cannot be negative: " <> show_int replicas)
    else if ltb_ℤ (pos 1000) replicas
    then some ("replica count too high: " <> show_int replicas <> " (max 1000 for safety)")
    else none

-- strings.ContainsAny with the characters < > " ' &
unfoldable pub has_special : List ℕ → Bool
has_special cs = any (λ c. eqb c b'<' || eqb c b'>' || eqb c 34 || eqb c 39 || eqb c b'&') cs

-- ValidateUserInput
unfoldable pub validate_user_input : Option String → Option String
validate_user_input none = none
validate_user_input (some user) =
    if user == ""
    then some "user cannot be empty string when provided"
    else if ltb 100 (len user)
    then some ("user name too long: " <> show_nat (len user) <> " characters (max 100)")
    else if has_special (codes user)
    then some "user name contains invalid characters"
    else none

-- The interface InputValidator
pub record InputValidator : Type 0 where
  pub namespace : String → Option String
  pub pod_name : String → Option String
  pub scale_input : ℤ → Option String
  pub user_input : Option String → Option String

-- DefaultInputValidator
unfoldable pub default_input_validator : InputValidator
default_input_validator = record {
  namespace = validate_namespace;
  pod_name = validate_pod_name;
  scale_input = validate_scale_input;
  user_input = validate_user_input;
}

-- The loop of each method of CompositeValidator: the first error wins.
unfoldable pub first_error : {A : Type 0} → List (A → Option String) → A → Option String
first_error [] a = none
first_error (check ∷ checks) a = elim (check a) [ some e ↦ some e | none ↦ first_error checks a ]
