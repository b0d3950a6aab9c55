-- ===== src/Services/Selectors.antt =====
-- internal/services: buildListOptions of the pod, deployment, stateful set and namespace services,
-- which is the same code four times, and buildWatchOptions.
pub mod Tests
use Prim.Native.String.{String, len}
use Prim.Native.String.append
use text.Mathlib.TextLemmas.{append-nil, append_assoc}
use text.Mathlib.TextPositions.{len-append}
use k8s_pod_manager_graphql.Prelude.{
  ◌≡◌, refl, ap, sym, ◌∙◌, false, List, [], ◌∷◌, map, ◌==◌, eq_iff, arith, Bool-cases, inl, inr,
  ◌≢◌, if◌then◌else◌,
}
use k8s_pod_manager_graphql.Prelude.Int.{ℤ, pos, ltb_ℤ}
use k8s_pod_manager_graphql.Prelude.Text.{◌<>◌, join}
use k8s_pod_manager_graphql.Prelude.GoMap.{GoMap}
use k8s_pod_manager_graphql.Services.Types.{ApiListOptions}

-- ListOptions
pub record ListOptions : Type 0 where
  pub namespace : String
  pub label_filter : GoMap String
  pub field_filter : GoMap String
  pub limit : ℤ
  pub continue : String

-- The loop over a filter; its order is that of the `range` over the map.
unfoldable pub selector_loop : String → GoMap String → String
selector_loop selector [] = selector
selector_loop selector ((key, value) ∷ filter) =
    selector_loop ((if selector == "" then selector else selector <> ",") <> key <> "=" <> value)
      filter

-- A filter that is empty sets no selector, which is the empty text too.
unfoldable pub selector : GoMap String → String
selector filter = selector_loop "" filter

-- buildListOptions
unfoldable pub build_list_options : ListOptions → ApiListOptions
build_list_options opts = record {
  label_selector = selector opts.label_filter;
  field_selector = selector opts.field_filter;
  limit = if ltb_ℤ (pos 0) opts.limit then opts.limit else pos 0;
  continue = opts.continue;
  resource_version = "";
}

-- WatchOptions
pub record WatchOptions : Type 0 where
  pub namespace : String
  pub label_filter : GoMap String
  pub field_filter : GoMap String
  pub resource_version : String

-- buildWatchOptions
unfoldable pub build_watch_options : WatchOptions → ApiListOptions
build_watch_options opts = record {
  label_selector = selector opts.label_filter;
  field_selector = selector opts.field_filter;
  limit = pos 0;
  continue = "";
  resource_version = opts.resource_version;
}

-- One requirement of a selector
abbrev pub requirement : String × String → String
requirement (key, value) = key <> "=" <> value

nonempty : (s key value : String) → (s <> key <> "=" <> value == "") ≡ false
nonempty s key value = elim (Bool-cases (s <> key <> "=" <> value == "")) [
  | inl e ↦ absurd (no_length (ap len ((eq_iff (s <> key <> "=" <> value) "").0 e)))
  | inr e ↦ e
]
  where
    no_length : len (s <> key <> "=" <> value) ≢ 0
    no_length h = omega (
      arith,
      h,
      len-append s (key <> "=" <> value),
      len-append key ("=" <> value),
      len-append "=" value,
    )

-- The filters that go on from a selector that is not empty
abbrev more : List (String × String) → String
more [] = ""
more (kv ∷ filter) = "," <> requirement kv <> more filter

join-requirement :
    (key value : String) (filter : GoMap String)
    → join "," (map requirement ((key, value) ∷ filter)) ≡ (key <> "=" <> value) <> more filter
unfolding join
join-requirement key value [] = sym (append-nil _)
join-requirement key value ((k, v) ∷ filter) =
    ap (λ t. (key <> "=" <> value) <> "," <> t) (join-requirement k v filter)

selector_loop-more :
    (s : String) (filter : GoMap String)
    → (s == "") ≡ false
    → selector_loop s filter ≡ s <> more filter
unfolding selector_loop
selector_loop-more s [] h = sym (append-nil s)
selector_loop-more s ((key, value) ∷ filter) h = rw h (
    selector_loop-more ((s <> ",") <> key <> "=" <> value) filter (nonempty (s <> ",") key value)
    ∙ append_assoc (s <> ",") (key <> "=" <> value) (more filter)
    ∙ append_assoc s "," ((key <> "=" <> value) <> more filter))

-- The loop builds the comma-separated list of the filter's requirements, with no comma at either end.
pub selector_lem : (filter : GoMap String) → selector filter ≡ join "," (map requirement filter)
unfolding selector selector_loop join
selector_lem [] = refl
selector_lem ((key, value) ∷ filter) =
    selector_loop-more ("" <> key <> "=" <> value) filter (nonempty "" key value)
    ∙ ap (λ t. t <> more filter) (append.nil (key <> "=" <> value))
    ∙ sym (join-requirement key value filter)
