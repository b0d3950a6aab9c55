-- ===== src/Services/Lists/Laws.antt =====
-- The lookups and lists write nothing, and the pods of a namespace are the same in both lists.
use k8s_pod_manager_graphql.Prelude.{
  String, ◌≡◌, refl, Bool, ◌||◌, Bool-cases, inl, inr, Option, none, some, List, ◌==◌,
}
use k8s_pod_manager_graphql.Prelude.Int.{ℤ}
use k8s_pod_manager_graphql.Services.Client.{Result, ok, err, Client, State}
use k8s_pod_manager_graphql.Services.Types.{Pod, ApiListOptions}
use k8s_pod_manager_graphql.Services.Restart.Laws.{trace-detect_controller}
use k8s_pod_manager_graphql.Prelude.Text.{◌<>◌}
use k8s_pod_manager_graphql.Prelude.{arith, eq_iff}
use k8s_pod_manager_graphql.Services.Selectors.{ListOptions}
use k8s_pod_manager_graphql.Services.Age.{Duration}
use k8s_pod_manager_graphql.Services.PodInfo.{Quantity}
use k8s_pod_manager_graphql.Services.Lists.{
  list_namespaces, listed_pods, list_pods, list_all_pods, get_pod, described_pod, converted_pods,
  listed_namespace, list_options,
}

-- The items of an answer, none for an error
abbrev pub items_of : {A : Type 0} → Result A → Option A
items_of (ok a) = some a
items_of (err e) = none

listed_namespace_lem : (opts : ListOptions) → listed_namespace (some opts) ≡ opts.namespace
unfolding listed_namespace
listed_namespace_lem opts = ground (arith, eq_iff opts.namespace "")

module _ {Q : Type 0} (client : Client Q) (title : String → String) (quantity : Quantity Q)
    (enable : Bool) (since : ℤ → Duration) where
  pub trace-list_namespaces :
      (opts : Option ListOptions) (s : State client.World)
      → (list_namespaces client title quantity enable since opts s).1.trace ≡ s.trace
  unfolding list_namespaces
  trace-list_namespaces opts s = refl

  trace-listed_pods :
      (namespace message : String) (opts : ApiListOptions) (s : State client.World)
      → (listed_pods client title quantity enable since namespace message opts s).1.trace ≡ s.trace
  unfolding listed_pods
  trace-listed_pods namespace message opts s = refl

  pub trace-list_pods :
      (namespace : String) (opts : Option ListOptions) (s : State client.World)
      → (list_pods client title quantity enable since namespace opts s).1.trace ≡ s.trace
  unfolding list_pods
  trace-list_pods namespace opts s = trace-listed_pods namespace _ (list_options opts) s

  pub trace-list_all_pods :
      (opts : Option ListOptions) (s : State client.World)
      → (list_all_pods client title quantity enable since opts s).1.trace ≡ s.trace
  unfolding list_all_pods
  trace-list_all_pods opts s = trace-listed_pods (listed_namespace opts) _ (list_options opts) s

  trace-described_pod :
      (reference : String) (found : Result (Pod Q)) (s : State client.World)
      → (described_pod client title quantity enable since reference found s).1.trace ≡ s.trace
  unfolding described_pod
  trace-described_pod reference (err e) s = refl
  trace-described_pod reference (ok pod) s = trace-detect_controller client "" title pod s

  pub trace-get_pod :
      (namespace name : String) (s : State client.World)
      → (get_pod client title quantity enable since namespace name s).1.trace ≡ s.trace
  unfolding get_pod
  trace-get_pod namespace name s = elim (Bool-cases (namespace == "" || name == "")) [
    | inl h ↦ rw (h, get_pod) refl
    | inr h ↦
        rw (h, get_pod)
          (trace-described_pod (namespace <> "/" <> name) (client.get_pod namespace name s.world).0
            (record s { world = (client.get_pod namespace name s.world).1 }))
  ]

  items_of-converted_pods :
      (message other : String) (found : Result (List (Pod Q)))
      → items_of (converted_pods client title quantity enable since message found)
        ≡ items_of (converted_pods client title quantity enable since other found)
  unfolding converted_pods
  items_of-converted_pods message other (ok pods) = refl
  items_of-converted_pods message other (err e) = refl

  -- Both lists of the pods of a namespace make the same call, and differ in the text of an error only.
  pub list_all_pods_lem :
      (opts : ListOptions) (s : State client.World)
      → ((list_all_pods client title quantity enable since (some opts) s).1
          ≡ (list_pods client title quantity enable since opts.namespace (some opts) s).1)
        × (items_of (list_all_pods client title quantity enable since (some opts) s).0
            ≡ items_of
                (list_pods client title quantity enable since opts.namespace (some opts) s).0)
  unfolding list_all_pods list_pods listed_pods
  list_all_pods_lem opts s = rw (listed_namespace_lem opts) (
    refl,
    items_of-converted_pods _ _
        (client.list_pods opts.namespace (list_options (some opts)) s.world).0,
  )
