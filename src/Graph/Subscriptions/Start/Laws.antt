-- ===== src/Graph/Subscriptions/Start/Laws.antt =====
-- Which calls of the services a subscription can start, and what it writes to the audit log.
use k8s_pod_manager_graphql.Prelude.{
  String, ◌≡◌, refl, sym, ◌∙◌, true, false, inl, inr, Option-cases, none, some, List, ◌∷◌,
}
use k8s_pod_manager_graphql.Prelude.Text.{◌<>◌}
use k8s_pod_manager_graphql.Prelude.Int.{pos}
use k8s_pod_manager_graphql.Services.Errors.{GoError}
use k8s_pod_manager_graphql.Services.Types.{Pod}
use k8s_pod_manager_graphql.Services.Client.{Client, State}
use k8s_pod_manager_graphql.Services.Controller.{ControllerInfo}
use k8s_pod_manager_graphql.Services.Streaming as Streaming
use k8s_pod_manager_graphql.Services.Streaming.{StreamApi}
use k8s_pod_manager_graphql.Services.Streaming.Laws.{trace-stream_logs, trace-watched_pods}
use k8s_pod_manager_graphql.Graph.Validation.{
  default_input_validator, validate_namespace, validate_pod_name,
}
use k8s_pod_manager_graphql.Graph.Validation.Laws.{
  IsNamespace, IsPodName, validate_namespace_iff, validate_pod_name_iff,
}
use k8s_pod_manager_graphql.Graph.Errors.{GraphqlError}
use k8s_pod_manager_graphql.Graph.Audit.{SubscriptionRecord}
use k8s_pod_manager_graphql.Graph.Subscriptions.Start.{
  ServiceCall, watch_pods_call, watch_all_pods_call, stream_logs_call, Started, watch_pods,
  watch_all_pods, stream_pod_logs, refused, stopped, call_service,
}

-- One record was written. Either the input is valid, the record is a start, the subscription makes `expected`
-- and the record after that call is the stop that belongs to the start; or the input is invalid, the client
-- gets an error, and the record is a stop.
abbrev pub IsLogged :
    (IsValid : Type 0) (operation namespace target : String) (expected : ServiceCall)
    → List SubscriptionRecord
    → Started
    → Type 0
IsLogged IsValid operation namespace target expected log (inl e, log') =
    (¬ IsValid)
    × (log' ≡ (record { operation = operation; namespace = namespace; started = false }) ∷ log)
IsLogged IsValid operation namespace target expected log (inr call, log') =
    IsValid
    × (call ≡ expected)
    × (log' ≡ (record { operation = operation; namespace = target; started = true }) ∷ log)
    × (stopped call ≡ record { operation = operation; namespace = target; started = false })

-- The last hundred lines with their times, and those that follow, of the first container
abbrev pub following_calls : (namespace name : String) → ServiceCall
following_calls namespace name = stream_logs_call namespace name (record {
  container = "";
  follow = true;
  tail_lines = some (pos 100);
  since_seconds = none;
  timestamps = true;
})

module _ (handle_validation_error : (text field : String) → GraphqlError) (namespace name : String)
    (log : List SubscriptionRecord) where
  invalid-IsNamespace :
      (t : String) → validate_namespace namespace ≡ some t → ¬ IsNamespace namespace
  invalid-IsNamespace t e n = let p = sym e ∙ (validate_namespace_iff namespace).1 n in absurd cc

  invalid-IsPodName : (t : String) → validate_pod_name name ≡ some t → ¬ IsPodName name
  invalid-IsPodName t e n = let p = sym e ∙ (validate_pod_name_iff name).1 n in absurd cc

  -- With the default validator a subscription writes one audit record before it returns. If the namespace or
  -- the pod name is invalid or reserved, and only then, the client gets an error, and the record is a stop
  -- with no start before it. Otherwise the record is the start, the subscription makes the one call for what
  -- was asked for, and the record after that call is its stop. Watching all pods is never refused.
  pub subscriptions-IsLogged :
      IsLogged
        (IsNamespace namespace)
        "watchPods"
        namespace
        namespace
        (watch_pods_call namespace)
        log
        (watch_pods default_input_validator handle_validation_error namespace log)
      × IsLogged Unit "watchAllPods" "all" "all" watch_all_pods_call log
          (watch_all_pods default_input_validator handle_validation_error log)
      × IsLogged
          (IsNamespace namespace × IsPodName name)
          "streamPodLogs"
          namespace
          (namespace <> "/" <> name)
          (following_calls namespace name)
          log
          (stream_pod_logs default_input_validator handle_validation_error namespace name log)
  unfolding watch_pods watch_all_pods stream_pod_logs refused stopped default_input_validator
  subscriptions-IsLogged = (
    elim (Option-cases (validate_namespace namespace)) [
      | inl e ↦ rw (e, watch_pods) ((validate_namespace_iff namespace).0 e, refl, refl, refl)
      | inr (t, e) ↦ rw (e, watch_pods) (invalid-IsNamespace t e, refl)
    ],
    (tt, refl, refl, refl),
    elim (Option-cases (validate_namespace namespace)) [
      | inr (t, e) ↦ rw (e, stream_pod_logs) ((λ h. invalid-IsNamespace t e h.0), refl)
      | inl e ↦
          rw (e, stream_pod_logs)
            (elim (Option-cases (validate_pod_name name)) [
              | inr (t, f) ↦ rw (f, stream_pod_logs) ((λ h. invalid-IsPodName t f h.1), refl)
              | inl f ↦
                  rw (f, stream_pod_logs)
                    (
                      ((validate_namespace_iff namespace).0 e, (validate_pod_name_iff name).0 f),
                      refl,
                      refl,
                      refl,
                    )
            ])
    ],
  )

module _ {Q I : Type 0} (client : Client Q) (api : StreamApi Q client.World)
    (context_error : GoError) (title : String → String) (convert : Pod Q → ControllerInfo → I) where
  -- The call that a subscription starts writes nothing to the cluster.
  pub trace-call_service :
      (call : ServiceCall) (s : State client.World)
      → (call_service client api context_error title convert call s).1.trace ≡ s.trace
  unfolding call_service Streaming.watch_pods Streaming.watch_all_pods
  trace-call_service (watch_pods_call namespace) s =
      trace-watched_pods client api context_error title convert namespace _ _ s
  trace-call_service watch_all_pods_call s =
      trace-watched_pods client api context_error title convert "" _ _ s
  trace-call_service (stream_logs_call namespace name opts) s =
      trace-stream_logs client api context_error namespace name opts s
