-- ===== src/Graph/Converter/Laws.antt =====
-- What a client can recover of the services' data from that of the schema.
use k8s_pod_manager_graphql.Prelude.{
  String, ◌≡◌, refl, ap, ap, ◌∙◌, Option, none, some, List, [], ◌∷◌, map, eq_iff, arith,
}
use k8s_pod_manager_graphql.Prelude.GoMap.{
  GoMap, lookup, insert, HasDistinctKeys, lookup-insert, lookup_of_IsAbsent,
}
use k8s_pod_manager_graphql.Services.Converter as Services
use k8s_pod_manager_graphql.Services.PodInfo as Info
use k8s_pod_manager_graphql.Graph.Converter.{
  KeyValue, ContainerInfo, map_to_key_value_pairs, convert_container_info_list, string_ptr,
  convert_pod_info,
}

-- The map that a client builds from the pairs, one entry after the other
abbrev pub build_map : GoMap String → List KeyValue → GoMap String
build_map built [] = built
build_map built (pair ∷ pairs) = build_map (insert pair.key pair.value built) pairs

-- The text of an optional field, "" for null
abbrev pub text_of : Option String → String
text_of none = ""
text_of (some s) = s

text_of-string_ptr : (s : String) → text_of (string_ptr s) ≡ s
unfolding string_ptr
text_of-string_ptr s = ground (arith, eq_iff s "")

-- The maps hold the same values.
abbrev pub AreSame : GoMap String → GoMap String → Type 0
AreSame m m' = (key : String) → lookup key m ≡ lookup key m'

lookup-build_map :
    (m built : GoMap String) (key : String)
    → HasDistinctKeys m
    → lookup key (build_map built (map_to_key_value_pairs m))
      ≡ elim (lookup key m) [ some v ↦ some v | none ↦ lookup key built ]
unfolding map_to_key_value_pairs lookup
lookup-build_map [] built key h = refl
lookup-build_map ((other, value) ∷ m) built key h = ground (
  arith,
  lookup-build_map m (insert other value built) key h.1,
  lookup-insert other key value built,
  lookup_of_IsAbsent other m h.0,
  eq_iff other key,
)

build_map-map_to_key_value_pairs :
    (m : GoMap String) → HasDistinctKeys m → AreSame (build_map [] (map_to_key_value_pairs m)) m
unfolding lookup
build_map-map_to_key_value_pairs m h key = lookup-build_map m [] key h ∙ absent (lookup key m)
  where
    absent :
        (o : Option String) → (elim o as (λ x. Option String) [ some v ↦ some v | none ↦ none ]) ≡ o
    absent (some v) = refl
    absent none = refl

-- A container of the schema has no resources.
abbrev pub restored : ContainerInfo → Services.ContainerInfo
restored container = record {
  name = container.name;
  image = container.image;
  ready = container.ready;
  restart_count = container.restart_count;
  state = container.state;
  resources = none;
}

abbrev pub without_resources : Services.ContainerInfo → Services.ContainerInfo
without_resources container = record container { resources = none }

map-restored :
    (containers : List Services.ContainerInfo)
    → map restored (convert_container_info_list containers) ≡ map without_resources containers
unfolding convert_container_info_list
map-restored [] = refl
map-restored (container ∷ containers) =
    ap (λ cs. without_resources container ∷ cs) (map-restored containers)

-- From the converted pod a client recovers the addresses, the node, all labels and the containers but for
-- their resources.
pub convert_pod_info-restored :
    (pod : Info.PodInfo)
    → HasDistinctKeys pod.labels
    → (text_of (convert_pod_info pod).pod_ip ≡ pod.pod_ip)
      × (text_of (convert_pod_info pod).host_ip ≡ pod.host_ip)
      × (text_of (convert_pod_info pod).node_name ≡ pod.node_name)
      × AreSame (build_map [] (convert_pod_info pod).labels) pod.labels
      × (map restored (convert_pod_info pod).containers ≡ map without_resources pod.containers)
unfolding convert_pod_info
convert_pod_info-restored pod h = (
  text_of-string_ptr pod.pod_ip,
  text_of-string_ptr pod.host_ip,
  text_of-string_ptr pod.node_name,
  build_map-map_to_key_value_pairs pod.labels h,
  map-restored pod.containers,
)
