-- ===== src/Graph/Queries/Laws.antt =====
-- What the queries write to the audit log, and what they leave alone.
use k8s_pod_manager_graphql.Prelude.{
  ℕ, String, ◌≡◌, refl, ◌⊎◌, inl, inr, Option, none, some, Option-cases, List, ◌∷◌, length,
}
use k8s_pod_manager_graphql.Services.Client.{Result, ok, err}
use k8s_pod_manager_graphql.Graph.Errors.{GraphqlError}
use k8s_pod_manager_graphql.Graph.Queries.{
  QueryResolver, QueryState, ListResponse, listed, list_query, validated_query, namespaces, pods,
  all_pods, deployments, statefulsets, pod,
}

-- The number of items that the client sees
abbrev pub shown_count : {A : Type 0} → GraphqlError ⊎ ListResponse A → ℕ
shown_count (inl e) = 0
shown_count (inr response) = length response.items

-- The count of a response is the number of its items.
abbrev pub IsCounted : {A : Type 0} → GraphqlError ⊎ ListResponse A → Type 0
IsCounted (inl e) = Unit
IsCounted (inr response) = response.count ≡ length response.items

module _ {W : Type 0} (r : QueryResolver W) where
  -- The log grew by one record of the query, with the number of items that the client sees.
  abbrev pub IsAudited :
      {A : Type 0} (operation namespace : String)
      → QueryState W
      → (GraphqlError ⊎ ListResponse A) × QueryState W
      → Type 0
  IsAudited operation namespace s (reply, s') =
      (s'.log
        ≡ (record {
          operation = operation;
          namespace = namespace;
          resource_count = shown_count reply;
        })
          ∷ s.log)
      × IsCounted reply

  listed-IsAudited :
      {A B : Type 0} (operation service_operation audited : String) (shown : Option String)
      (convert : A → B) (s : QueryState W) (answer : Result (List A) × W)
      → IsAudited operation audited s
          (listed r operation service_operation audited shown convert s.log answer)
  unfolding listed
  listed-IsAudited operation service_operation audited shown convert s (err e, w) = (refl, tt)
  listed-IsAudited operation service_operation audited shown convert s (ok found, w) = (refl, refl)

  list_query-IsAudited :
      {A B : Type 0} (operation service_operation audited : String) (shown : Option String)
      (convert : A → B) (call : W → Result (List A) × W) (s : QueryState W)
      → IsAudited operation audited s
          (list_query r operation service_operation audited shown convert call s)
  unfolding list_query
  list_query-IsAudited operation service_operation audited shown convert call s =
      listed-IsAudited operation service_operation audited shown convert s (call s.world)

  validated_query-IsAudited :
      {B : Type 0} (operation namespace : String)
      (query : QueryState W → (GraphqlError ⊎ ListResponse B) × QueryState W) (s : QueryState W)
      → IsAudited operation namespace s (query s)
      → IsAudited operation namespace s (validated_query r operation namespace query s)
  unfolding validated_query
  validated_query-IsAudited operation namespace query s h =
      elim (Option-cases (r.validator.namespace namespace)) [
        | inl e ↦ rw (e, validated_query) h
        | inr (text, e) ↦ rw (e, validated_query) (refl, tt)
      ]

  abbrev all_or : Option String → String
  all_or none = "all"
  all_or (some namespace) = namespace

  -- Every list query, on every path, writes exactly one audit record, whose count is the number of items
  -- that the client sees, 0 beside an error, and which the response states too. The query of one pod
  -- writes none.
  pub queries-IsAudited :
      (namespace name : String) (optional : Option String) (s : QueryState W)
      → IsAudited "namespaces" "all" s (namespaces r s)
        × IsAudited "pods" namespace s (pods r namespace s)
        × IsAudited "allPods" (all_or optional) s (all_pods r optional s)
        × IsAudited "deployments" namespace s (deployments r namespace s)
        × IsAudited "statefulsets" namespace s (statefulsets r namespace s)
        × ((pod r namespace name s).1.log ≡ s.log)
  unfolding namespaces pods all_pods deployments statefulsets pod
  queries-IsAudited namespace name optional s = (
    list_query-IsAudited _ _ _ _ _ _ s,
    validated_query-IsAudited _ namespace _ s (list_query-IsAudited _ _ _ _ _ _ s),
    all_pods_lem optional,
    validated_query-IsAudited _ namespace _ s (list_query-IsAudited _ _ _ _ _ _ s),
    validated_query-IsAudited _ namespace _ s (list_query-IsAudited _ _ _ _ _ _ s),
    elim (Option-cases (r.validator.namespace namespace)) [
      | inr (text, e) ↦ rw (e, pod) refl
      | inl e ↦
          rw (e, pod)
            (elim (Option-cases (r.validator.pod_name name)) [
              | inr (text, f) ↦ rw (f, pod) refl
              | inl f ↦ rw (f, pod) refl
            ])
    ],
  )
    where
      all_pods_lem :
          (optional : Option String)
          → IsAudited "allPods" (all_or optional) s (all_pods r optional s)
      all_pods_lem none = list_query-IsAudited _ _ _ _ _ _ s
      all_pods_lem (some n) = validated_query-IsAudited _ n _ s (list_query-IsAudited _ _ _ _ _ _ s)
