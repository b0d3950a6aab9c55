-- ===== src/Graph/Validation/Laws.antt =====
-- What the checks accept, stated without the code's order of tests.
use Prim.Native.String.{String, len}
use text.Mathlib.Text.{starts_with}
use k8s_pod_manager_graphql.Prelude.{
  ℕ, ◌≤◌, ◌≡◌, refl, ◌≢◌, ◌↔◌, Bool, true, false, Option, none, List, [], ◌∷◌, arith, eq_iff, All,
  subst, Option-cases, inl, inr,
}
use k8s_pod_manager_graphql.Prelude.Int.{ℤ, pos, negsuc, ◌≤ℤ◌, InInt32, wrap_int32, wrap_int32_id}
use k8s_pod_manager_graphql.Graph.Validation.{
  codes, is_alphanumeric, is_name_char, matches_body, matches_tail, matches_name,
  validate_namespace, validate_pod_name, validate_scale_input, bad_prefix, first_error,
}

-- The last character satisfies `p`; false of the empty list.
abbrev pub LastIs : (ℕ → Bool) → List ℕ → Type 0
LastIs p [] = ⊥
LastIs p (c ∷ []) = p c ≡ true
LastIs p (c ∷ d ∷ cs) = LastIs p (d ∷ cs)

abbrev pub FirstIs : (ℕ → Bool) → List ℕ → Type 0
FirstIs p [] = ⊥
FirstIs p (c ∷ cs) = p c ≡ true

-- A DNS-1123 label, but for its length: lower-case letters, digits and dashes, and no dash at
-- either end.
pub record IsLabel (cs : List ℕ) : Type 0 where
  pub starts : FirstIs is_alphanumeric cs
  pub ends : LastIs is_alphanumeric cs
  pub chars : All (λ c. is_name_char c ≡ true) cs

is_name_char_of_alphanumeric : (c : ℕ) → is_alphanumeric c ≡ true → is_name_char c ≡ true
unfolding is_name_char
is_name_char_of_alphanumeric c h = rw h

matches_body_sound :
    (cs : List ℕ)
    → matches_body cs ≡ true
    → LastIs is_alphanumeric cs × All (λ c. is_name_char c ≡ true) cs
unfolding matches_body
matches_body_sound [] h = cc
matches_body_sound (c ∷ []) h = (h, (is_name_char_of_alphanumeric c h, tt))
matches_body_sound (c ∷ d ∷ cs) h = ground (arith, matches_body_sound (d ∷ cs))

matches_body_complete :
    (cs : List ℕ)
    → LastIs is_alphanumeric cs
    → All (λ c. is_name_char c ≡ true) cs
    → matches_body cs ≡ true
unfolding matches_body
matches_body_complete [] l a = absurd l
matches_body_complete (c ∷ []) l a = l
matches_body_complete (c ∷ d ∷ cs) l a = ground (arith, matches_body_complete (d ∷ cs) l a.1)

matches_name-IsLabel : (cs : List ℕ) → matches_name cs ≡ true → IsLabel cs
unfolding matches_name matches_tail
matches_name-IsLabel [] h = cc
matches_name-IsLabel (c ∷ []) h =
    let a : is_alphanumeric c ≡ true = ground arith in
    record { starts = a; ends = a; chars = (is_name_char_of_alphanumeric c a, tt) }
matches_name-IsLabel (c ∷ d ∷ cs) h =
    let a : is_alphanumeric c ≡ true = ground arith in
    let (l, m) = matches_body_sound (d ∷ cs) (ground arith) in
    record { starts = a; ends = l; chars = (is_name_char_of_alphanumeric c a, m) }

IsLabel-matches_name : (cs : List ℕ) → IsLabel cs → matches_name cs ≡ true
unfolding matches_name matches_tail
IsLabel-matches_name [] h = absurd h.starts
IsLabel-matches_name (c ∷ []) h = rw h.starts
IsLabel-matches_name (c ∷ d ∷ cs) h = rw h.starts (matches_body_complete (d ∷ cs) h.ends h.chars.1)

-- The regular expression of resource names accepts exactly the DNS-1123 labels of any length.
pub matches_name_iff : (cs : List ℕ) → (matches_name cs ≡ true) ↔ IsLabel cs
matches_name_iff cs = (matches_name-IsLabel cs, IsLabel-matches_name cs)

pub record IsNamespace (namespace : String) : Type 0 where
  pub label : IsLabel (codes namespace)
  pub short : len namespace ≤ 63
  pub not_system : namespace ≢ "kube-system"
  pub not_public : namespace ≢ "kube-public"
  pub not_lease : namespace ≢ "kube-node-lease"

not_empty : (s : String) → IsLabel (codes s) → s ≢ ""
not_empty s h e = (subst (λ t. IsLabel (codes t)) e h).starts

module _ (namespace : String) where
  IsNamespace-accepted : IsNamespace namespace → validate_namespace namespace ≡ none
  unfolding validate_namespace
  IsNamespace-accepted h = ground (
    arith,
    not_empty namespace h.label,
    (matches_name_iff (codes namespace)).1 h.label,
    eq_iff namespace "",
    eq_iff namespace "kube-system",
    eq_iff namespace "kube-public",
    eq_iff namespace "kube-node-lease",
  )

  accepted-IsNamespace : validate_namespace namespace ≡ none → IsNamespace namespace
  unfolding validate_namespace
  accepted-IsNamespace h = record {
    label = matches_name-IsLabel (codes namespace) (ground arith);
    short = ground arith;
    not_system = λ p. ground (arith, eq_iff namespace "kube-system", p);
    not_public = λ p. ground (arith, eq_iff namespace "kube-public", p);
    not_lease = λ p. ground (arith, eq_iff namespace "kube-node-lease", p);
  }

  -- A namespace passes exactly if it is a DNS-1123 label of at most 63 bytes and none of the three
  -- reserved namespaces.
  pub validate_namespace_iff : (validate_namespace namespace ≡ none) ↔ IsNamespace namespace
  validate_namespace_iff = (accepted-IsNamespace, IsNamespace-accepted)

pub record IsPodName (name : String) : Type 0 where
  pub label : IsLabel (codes name)
  pub short : len name ≤ 63
  pub not_kube : starts_with name "kube-" ≡ false
  pub not_system : starts_with name "system-" ≡ false

bad_prefix_iff :
    (name : String)
    → (bad_prefix name ("kube-" ∷ "system-" ∷ []) ≡ none)
      ↔ ((starts_with name "kube-" ≡ false) × (starts_with name "system-" ≡ false))
unfolding bad_prefix
bad_prefix_iff name = ground arith

module _ (name : String) where
  IsPodName-accepted : IsPodName name → validate_pod_name name ≡ none
  unfolding validate_pod_name
  IsPodName-accepted h = ground (
    arith,
    not_empty name h.label,
    (matches_name_iff (codes name)).1 h.label,
    eq_iff name "",
    (bad_prefix_iff name).1 (h.not_kube, h.not_system),
  )

  accepted-IsPodName : validate_pod_name name ≡ none → IsPodName name
  unfolding validate_pod_name
  accepted-IsPodName h =
      let no_prefix : bad_prefix name ("kube-" ∷ "system-" ∷ []) ≡ none = ground arith in
      record {
        label = matches_name-IsLabel (codes name) (ground arith);
        short = ground arith;
        not_kube = ((bad_prefix_iff name).0 no_prefix).0;
        not_system = ((bad_prefix_iff name).0 no_prefix).1;
      }

  -- A pod name passes exactly if it is a DNS-1123 label of at most 63 bytes that starts with neither
  -- of the two reserved prefixes.
  pub validate_pod_name_iff : (validate_pod_name name ≡ none) ↔ IsPodName name
  validate_pod_name_iff = (accepted-IsPodName, IsPodName-accepted)

in_range :
    (replicas : ℤ)
    → validate_scale_input replicas ≡ none
    → ((pos 0 ≤ℤ replicas) × (replicas ≤ℤ pos 1000)) × InInt32 replicas
unfolding validate_scale_input
in_range (pos n) h = ((ground arith, ground arith), (ground arith, ground arith))
in_range (negsuc n) h = absurd (ground arith)

accepted :
    (replicas : ℤ)
    → (pos 0 ≤ℤ replicas) × (replicas ≤ℤ pos 1000)
    → validate_scale_input replicas ≡ none
unfolding validate_scale_input
accepted replicas h = ground arith

-- A number of replicas passes exactly if it lies between 0 and 1000 and the conversion to int32
-- that the resolvers make keeps it.
pub validate_scale_input_iff :
    (replicas : ℤ)
    → (validate_scale_input replicas ≡ none)
      ↔ (((pos 0 ≤ℤ replicas) × (replicas ≤ℤ pos 1000)) × (wrap_int32 replicas ≡ replicas))
validate_scale_input_iff replicas = (
  (λ h. ((in_range replicas h).0, wrap_int32_id replicas (in_range replicas h).1)),
  λ h. accepted replicas h.0,
)

first_error-All :
    {A : Type 0} (checks : List (A → Option String)) (a : A)
    → first_error checks a ≡ none
    → All (λ check. check a ≡ none) checks
unfolding first_error
first_error-All [] a h = tt
first_error-All (check ∷ checks) a h = elim (Option-cases (check a)) [
  | inl e ↦ (e, first_error-All checks a (ground arith))
  | inr (m, e) ↦ cc
]

All-first_error :
    {A : Type 0} (checks : List (A → Option String)) (a : A)
    → All (λ check. check a ≡ none) checks
    → first_error checks a ≡ none
unfolding first_error
All-first_error [] a h = refl
All-first_error (check ∷ checks) a h = ground (arith, All-first_error checks a h.1)

-- A composite check passes exactly if each of its checks does.
pub first_error_iff :
    {A : Type 0} (checks : List (A → Option String)) (a : A)
    → (first_error checks a ≡ none) ↔ All (λ check. check a ≡ none) checks
first_error_iff checks a = (first_error-All checks a, All-first_error checks a)
