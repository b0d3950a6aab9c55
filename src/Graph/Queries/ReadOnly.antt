-- ===== src/Graph/Queries/ReadOnly.antt =====
-- No query writes to the cluster, and the two lists of the pods of a namespace agree.
use k8s_pod_manager_graphql.Prelude.{
  String, Bool, ◌≡◌, refl, ap, sym, ◌∙◌, ◌⊎◌, inl, inr, Option, none, some, Option-cases, List, [],
  ◌∷◌, map,
}
use k8s_pod_manager_graphql.Prelude.Int.{ℤ}
use k8s_pod_manager_graphql.Services.Client.{Result, ok, err, Client, State}
use k8s_pod_manager_graphql.Services.Selectors.{build_list_options}
use k8s_pod_manager_graphql.Services.Age.{Duration}
use k8s_pod_manager_graphql.Services.PodInfo.{Quantity}
use k8s_pod_manager_graphql.Services.Lists as Lists
use k8s_pod_manager_graphql.Services.Lists.Laws.{
  trace-list_namespaces, trace-list_pods, trace-list_all_pods, trace-get_pod, items_of,
  list_all_pods_lem,
}
use k8s_pod_manager_graphql.Graph.Errors.{GraphqlError, ApiErrors}
use k8s_pod_manager_graphql.Graph.Queries.{
  QueryResolver, QueryState, ListResponse, listed, list_query, validated_query, namespaces, pods,
  all_pods, deployments, statefulsets, pod,
}
use k8s_pod_manager_graphql.Graph.Queries.Adapter.{
  Query, namespaces_query, pods_query, deployments_query, statefulsets_query, all_pods_query,
  pod_query, list_objects, reader, query_resolver, serve_query, serve_queries, default_options,
  all_pods_options,
}

-- The items that the client sees, none for an error
abbrev pub shown_items : {A : Type 0} → GraphqlError ⊎ ListResponse A → Option (List A)
shown_items (inl e) = none
shown_items (inr response) = some response.items

abbrev option_map : {A B : Type 0} → (A → B) → Option A → Option B
option_map f none = none
option_map f (some a) = some (f a)

module _ {W : Type 0} (r : QueryResolver W) where
  world-listed :
      {A B : Type 0} (operation service_operation audited : String) (shown : Option String)
      (convert : A → B) (s : QueryState W) (answer : Result (List A) × W)
      → (listed r operation service_operation audited shown convert s.log answer).1.world ≡ answer.1
  unfolding listed
  world-listed operation service_operation audited shown convert s (ok found, w) = refl
  world-listed operation service_operation audited shown convert s (err e, w) = refl

  shown_items-listed :
      {A B : Type 0} (operation service_operation audited : String) (shown : Option String)
      (convert : A → B) (s : QueryState W) (answer : Result (List A) × W)
      → shown_items (listed r operation service_operation audited shown convert s.log answer).0
        ≡ option_map (map convert) (items_of answer.0)
  unfolding listed
  shown_items-listed operation service_operation audited shown convert s (ok found, w) = refl
  shown_items-listed operation service_operation audited shown convert s (err e, w) = refl

module _ {Q : Type 0} (client : Client Q) (title to_lower : String → String) (api : ApiErrors)
    (quantity : Quantity Q) (enable : Bool) (since : ℤ → Duration) where
  abbrev pub resolver : QueryResolver (State client.World)
  resolver = query_resolver client title to_lower api quantity enable since

  -- The trace of the effects is the one of `s`.
  abbrev Keeps : QueryState (State client.World) → QueryState (State client.World) → Type 0
  Keeps s s' = s'.world.trace ≡ s.world.trace

  list_query-Keeps :
      {A B : Type 0} (operation service_operation audited : String) (shown : Option String)
      (convert : A → B) (call : State client.World → Result (List A) × State client.World)
      (s : QueryState (State client.World))
      → (call s.world).1.trace ≡ s.world.trace
      → Keeps s (list_query resolver operation service_operation audited shown convert call s).1
  unfolding list_query
  list_query-Keeps operation service_operation audited shown convert call s h =
      ap (λ (w : State client.World). w.trace)
        (world-listed resolver operation service_operation audited shown convert s (call s.world))
      ∙ h

  validated_query-Keeps :
      {B : Type 0} (operation namespace : String)
      (query : QueryState (State client.World)
        → (GraphqlError ⊎ ListResponse B) × QueryState (State client.World))
      (s : QueryState (State client.World))
      → Keeps s (query s).1
      → Keeps s (validated_query resolver operation namespace query s).1
  unfolding validated_query
  validated_query-Keeps operation namespace query s h =
      elim (Option-cases (resolver.validator.namespace namespace)) [
        | inl e ↦ rw (e, validated_query) h
        | inr (text, e) ↦ rw (e, validated_query) refl
      ]

  pod-Keeps :
      (namespace name : String) (s : QueryState (State client.World))
      → Keeps s (pod resolver namespace name s).1
  unfolding pod query_resolver reader
  pod-Keeps namespace name s = elim (Option-cases (resolver.validator.namespace namespace)) [
    | inr (text, e) ↦ rw (e, pod) refl
    | inl e ↦
        rw (e, pod)
          (elim (Option-cases (resolver.validator.pod_name name)) [
            | inr (text, f) ↦ rw (f, pod) refl
            | inl f ↦
                rw (f, pod)
                  (trace-get_pod client title quantity enable since namespace name s.world)
          ])
  ]

  serve_query-Keeps :
      (q : Query) (s : QueryState (State client.World))
      → Keeps s (serve_query client title to_lower api quantity enable since q s)
  unfolding serve_query namespaces pods deployments statefulsets all_pods query_resolver reader
      list_objects
  serve_query-Keeps namespaces_query s =
      list_query-Keeps _ _ _ _ _ _ s
        (trace-list_namespaces client title quantity enable since _ s.world)
  serve_query-Keeps (pods_query namespace) s = validated_query-Keeps _ namespace _ s (
      list_query-Keeps _ _ _ _ _ _ s
        (trace-list_pods client title quantity enable since namespace _ s.world))
  serve_query-Keeps (deployments_query namespace) s =
      validated_query-Keeps _ namespace _ s (list_query-Keeps _ _ _ _ _ _ s refl)
  serve_query-Keeps (statefulsets_query namespace) s =
      validated_query-Keeps _ namespace _ s (list_query-Keeps _ _ _ _ _ _ s refl)
  serve_query-Keeps (all_pods_query none) s =
      list_query-Keeps _ _ _ _ _ _ s
        (trace-list_all_pods client title quantity enable since _ s.world)
  serve_query-Keeps (all_pods_query (some namespace)) s = validated_query-Keeps _ namespace _ s (
      list_query-Keeps _ _ _ _ _ _ s
        (trace-list_all_pods client title quantity enable since _ s.world))
  serve_query-Keeps (pod_query namespace name) s = pod-Keeps namespace name s

  -- Whatever queries the server answers one after the other, they write nothing to the cluster and no
  -- audit record of the services.
  pub trace-serve_queries :
      (qs : List Query) (s : QueryState (State client.World))
      → (serve_queries client title to_lower api quantity enable since qs s).world.trace
        ≡ s.world.trace
  unfolding serve_queries
  trace-serve_queries [] s = refl
  trace-serve_queries (q ∷ qs) s =
      trace-serve_queries qs (serve_query client title to_lower api quantity enable since q s)
      ∙ serve_query-Keeps q s

  abbrev pub IsSame :
      {A : Type 0} (x y : (GraphqlError ⊎ ListResponse A) × QueryState (State client.World))
      → Type 0
  IsSame x y = (shown_items x.0 ≡ shown_items y.0) × (x.1.world ≡ y.1.world)

  list_query-IsSame :
      {A B : Type 0} (operation service_operation audited : String) (shown : Option String)
      (operation' service_operation' audited' : String) (shown' : Option String) (convert : A → B)
      (call call' : State client.World → Result (List A) × State client.World)
      (s : QueryState (State client.World))
      → (call s.world).1 ≡ (call' s.world).1
      → items_of (call s.world).0 ≡ items_of (call' s.world).0
      → IsSame
          (list_query resolver operation service_operation audited shown convert call s)
          (list_query resolver operation' service_operation' audited' shown' convert call' s)
  unfolding list_query
  list_query-IsSame operation service audited shown operation' service' audited' shown' convert call
        call' s w i =
      (
        shown_items-listed resolver operation service audited shown convert s (call s.world)
            ∙ ap (option_map (map convert)) i
            ∙ sym (
                shown_items-listed resolver operation' service' audited' shown' convert s
                  (call' s.world)),
        world-listed resolver operation service audited shown convert s (call s.world)
            ∙ w
            ∙ sym (
                world-listed resolver operation' service' audited' shown' convert s
                  (call' s.world)),
      )

  lists_agree :
      (namespace : String) (s : State client.World)
      → ((Lists.list_all_pods client title quantity enable since
            (some (default_options namespace))
            s).1
          ≡ (Lists.list_pods client title quantity enable since namespace
              (some (default_options ""))
              s).1)
        × (items_of
              (Lists.list_all_pods client title quantity enable since
                (some (default_options namespace))
                s).0
            ≡ items_of
                (Lists.list_pods client title quantity enable since namespace
                  (some (default_options ""))
                  s).0)
  unfolding default_options Lists.list_pods Lists.list_options build_list_options
  lists_agree namespace s =
      list_all_pods_lem client title quantity enable since (default_options namespace) s

  -- A query for all pods of one namespace shows the client the same pods as the query for the pods of
  -- that namespace, or an error where it gets one, and leaves the same state of the cluster.
  pub all_pods-pods :
      (namespace : String) (s : QueryState (State client.World))
      → IsSame (all_pods resolver (some namespace) s) (pods resolver namespace s)
  unfolding all_pods pods validated_query query_resolver reader all_pods_options
  all_pods-pods namespace s = elim (Option-cases (resolver.validator.namespace namespace)) [
    | inr (text, e) ↦ rw (e, validated_query) (refl, refl)
    | inl e ↦
        rw (e, validated_query)
          (list_query-IsSame _ _ _ _ _ _ _ _ _ _ _ s (lists_agree namespace s.world).0
            (lists_agree namespace s.world).1)
  ]
