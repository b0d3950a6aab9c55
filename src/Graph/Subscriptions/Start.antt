-- ===== src/Graph/Subscriptions/Start.antt =====
-- graph/schema.resolvers.go: what the subscription resolvers do before and after the two goroutines, and
-- graph/resolver.go: the calls of the services that the first goroutine makes.
pub mod Laws
pub mod Tests
use k8s_pod_manager_graphql.Prelude.{
  String, true, false, ◌⊎◌, inl, inr, Option, none, some, List, [], ◌∷◌,
}
use k8s_pod_manager_graphql.Prelude.Int.{pos}
use k8s_pod_manager_graphql.Prelude.Text.{◌<>◌}
use k8s_pod_manager_graphql.Services.Errors.{GoError}
use k8s_pod_manager_graphql.Services.Types.{Pod}
use k8s_pod_manager_graphql.Services.Client.{Client, Exec}
use k8s_pod_manager_graphql.Services.Controller.{ControllerInfo}
use k8s_pod_manager_graphql.Services.Pods.{PodWatchEvent}
use k8s_pod_manager_graphql.Services.Selectors.{WatchOptions}
use k8s_pod_manager_graphql.Services.Streaming as Streaming
use k8s_pod_manager_graphql.Services.Streaming.{LogStreamOptions, PodLogLine, Ending, StreamApi}
use k8s_pod_manager_graphql.Graph.Validation.{InputValidator}
use k8s_pod_manager_graphql.Graph.Errors.{GraphqlError}
use k8s_pod_manager_graphql.Graph.Audit.{SubscriptionRecord}

-- The call of the service that a subscription starts
pub data ServiceCall : Type 0 where
  watch_pods_call : (namespace : String) → ServiceCall
  watch_all_pods_call : ServiceCall
  stream_logs_call : (namespace name : String) → LogStreamOptions → ServiceCall

-- The subscription's reply: an error, or a channel with a call of the service behind it; and the audit
-- log, the latest record first
abbrev pub Started : Type 0
Started = (GraphqlError ⊎ ServiceCall) × List SubscriptionRecord

-- The options of StreamPodLogs
abbrev pub default_log_options : LogStreamOptions
default_log_options = record {
  container = "";
  follow = true;
  tail_lines = some (pos 100);
  since_seconds = none;
  timestamps = true;
}

module _ (validator : InputValidator)
    (handle_validation_error : (text field : String) → GraphqlError) where
  -- A check that fails is logged as a stop.
  unfoldable pub refused :
      (operation namespace text field : String) → List SubscriptionRecord → Started
  refused operation namespace text field log = (
    inl (handle_validation_error text field),
    (record { operation = operation; namespace = namespace; started = false }) ∷ log,
  )

  -- WatchPods
  unfoldable pub watch_pods : (namespace : String) → List SubscriptionRecord → Started
  watch_pods namespace log = elim (validator.namespace namespace) [
    | some e ↦ refused "watchPods" namespace e "namespace" log
    | none ↦ (
      inr (watch_pods_call namespace),
      (record { operation = "watchPods"; namespace = namespace; started = true }) ∷ log,
    )
  ]

  -- WatchAllPods
  unfoldable pub watch_all_pods : List SubscriptionRecord → Started
  watch_all_pods log = (
    inr watch_all_pods_call,
    (record { operation = "watchAllPods"; namespace = "all"; started = true }) ∷ log,
  )

  -- StreamPodLogs
  unfoldable pub stream_pod_logs : (namespace name : String) → List SubscriptionRecord → Started
  stream_pod_logs namespace name log = elim (validator.namespace namespace) [
    | some e ↦ refused "streamPodLogs" namespace e "namespace" log
    | none ↦ elim (validator.pod_name name) [
      | some e ↦ refused "streamPodLogs" namespace e "name" log
      | none ↦ (
        inr (stream_logs_call namespace name default_log_options),
        (record {
          operation = "streamPodLogs";
          namespace = namespace <> "/" <> name;
          started = true;
        })
            ∷ log,
      )
    ]
  ]

-- The record that the goroutine of the service leaves when the call returns
unfoldable pub stopped : ServiceCall → SubscriptionRecord
stopped (watch_pods_call namespace) = record {
  operation = "watchPods";
  namespace = namespace;
  started = false;
}
stopped watch_all_pods_call = record {
  operation = "watchAllPods";
  namespace = "all";
  started = false;
}
stopped (stream_logs_call namespace name opts) = record {
  operation = "streamPodLogs";
  namespace = namespace <> "/" <> name;
  started = false;
}

-- What a service sent in one call
pub data Sent (I : Type 0) : Type 0 where
  events : List (PodWatchEvent I) → Sent I
  lines : List PodLogLine → Sent I

abbrev watch_options : (namespace : String) → WatchOptions
watch_options namespace = record {
  namespace = namespace;
  label_filter = [];
  field_filter = [];
  resource_version = "";
}

-- The methods WatchPods, WatchAllPods and StreamLogs of PodServiceAdapter
module _ {Q I : Type 0} (client : Client Q) (api : StreamApi Q client.World)
    (context_error : GoError) (title : String → String) (convert : Pod Q → ControllerInfo → I) where
  unfoldable pub call_service : ServiceCall → Exec client.World (Sent I × Ending)
  call_service (watch_pods_call namespace) s =
      let ((sent, end), s') =
        Streaming.watch_pods client api context_error title convert true namespace
          (some (watch_options namespace)) s in
      ((events sent, end), s')
  call_service watch_all_pods_call s =
      let ((sent, end), s') =
        Streaming.watch_all_pods client api context_error title convert true
          (some (watch_options "")) s in
      ((events sent, end), s')
  call_service (stream_logs_call namespace name opts) s =
      let ((sent, end), s') =
        Streaming.stream_logs client api context_error namespace name opts s in
      ((lines sent, end), s')
