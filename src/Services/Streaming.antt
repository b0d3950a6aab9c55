-- ===== src/Services/Streaming.antt =====
-- internal/services/pod_service_impl.go: WatchPods, WatchAllPods and StreamLogs. What a watcher or a log
-- stream delivers is the answer of the call that opens it; closing them leaves no trace.
pub mod Laws
pub mod Tests
use k8s_pod_manager_graphql.Prelude.{String, Bool, Option, none, some, List, [], ◌∷◌, ◌==◌}
use k8s_pod_manager_graphql.Prelude.Int.{ℤ}
use k8s_pod_manager_graphql.Prelude.Text.{◌<>◌}
use k8s_pod_manager_graphql.Services.Errors.{
  GoError, nil, caused, new_validation_error, new_not_found_error, new_internal_error,
}
use k8s_pod_manager_graphql.Services.Types.{Pod, ApiListOptions}
use k8s_pod_manager_graphql.Services.Client.{
  Result, ok, err, Client, Exec, ◌>>=◌, pure, read, when◌run◌otherwise◌,
}
use k8s_pod_manager_graphql.Services.Controller.{ControllerInfo}
use k8s_pod_manager_graphql.Services.Selectors.{WatchOptions, build_watch_options}
use k8s_pod_manager_graphql.Services.Lists.{no_options}
use k8s_pod_manager_graphql.Services.Pods.{
  Received, PodWatchEvent, process_watch_events, choose_container,
}

-- LogStreamOptions
pub record LogStreamOptions : Type 0 where
  pub container : String
  pub follow : Bool
  pub tail_lines : Option ℤ
  pub since_seconds : Option ℤ
  pub timestamps : Bool

-- corev1.PodLogOptions: the fields that the service sets
pub record PodLogOptions : Type 0 where
  pub container : String
  pub follow : Bool
  pub timestamps : Bool
  pub tail_lines : Option ℤ
  pub since_seconds : Option ℤ

-- PodLogLine without its time
pub record PodLogLine : Type 0 where
  pub line : String
  pub container : String

-- What the loop over the log meets: a line that it sends, a line after the end of the context, or the end
-- of the log, with the scanner's error if there is one
pub data Scanned : Type 0 where
  line : (text : String) → Scanned
  cancelled : (text : String) → Scanned
  ended : Option GoError → Scanned

-- A call that sends on a channel still waits, or has returned.
pub data Ending : Type 0 where
  waits : Ending
  returned : Option GoError → Ending

-- The calls that open a watcher and a log stream
pub record StreamApi (Q W : Type 0) : Type 0 where
  pub watch : (namespace : String) → ApiListOptions → W → Result (List (Received Q)) × W
  pub stream : (namespace pod_name : String) → PodLogOptions → W → Result (List Scanned) × W

-- The options of a watch, which may be nil
unfoldable pub watch_options : Option WatchOptions → ApiListOptions
watch_options none = no_options
watch_options (some opts) = build_watch_options opts

unfoldable pub ending_of : Option GoError → Ending
ending_of none = waits
ending_of (some e) = returned (some e)

-- The options that StreamLogs passes to the API
unfoldable pub pod_log_options : (container : String) → LogStreamOptions → PodLogOptions
pod_log_options container opts = record {
  container = container;
  follow = opts.follow;
  timestamps = opts.timestamps;
  tail_lines = opts.tail_lines;
  since_seconds = opts.since_seconds;
}

-- streamLogsFromReader: the lines that it sends, and how it ends. `context_error` is ctx.Err().
unfoldable pub stream_logs_from_reader :
    (context_error : GoError) (container : String) → List Scanned → List PodLogLine × Ending
stream_logs_from_reader context_error container [] = ([], waits)
stream_logs_from_reader context_error container (line text ∷ rest) =
    let (lines, end) = stream_logs_from_reader context_error container rest in
    ((record { line = text; container = container }) ∷ lines, end)
stream_logs_from_reader context_error container (cancelled text ∷ rest) =
    ([], returned (some context_error))
stream_logs_from_reader context_error container (ended none ∷ rest) = ([], returned none)
stream_logs_from_reader context_error container (ended (some e) ∷ rest) =
    ([], returned (some (new_internal_error "error reading log stream" (caused e))))

-- An error before anything is sent
abbrev pub refused : {A : Type 0} → GoError → List A × Ending
refused e = ([], returned (some e))

module _ {Q : Type 0} (client : Client Q) (api : StreamApi Q client.World)
    (context_error : GoError) where
  module _ {I : Type 0} (title : String → String) (convert : Pod Q → ControllerInfo → I) where
    -- The loop of WatchPods and WatchAllPods over the answer of the API
    unfoldable pub watch_opened :
        (message : String)
        → Result (List (Received Q))
        → Exec client.World (List (PodWatchEvent I) × Ending)
    watch_opened message (err e) s = (refused (new_internal_error message (caused e)), s)
    watch_opened message (ok received) s =
        let ((events, end), s') =
          process_watch_events client title convert context_error received s in
        ((events, ending_of end), s')

    -- The body of WatchPods and WatchAllPods, after their first check
    unfoldable pub watched_pods :
        (namespace message : String)
        → Option WatchOptions
        → Exec client.World (List (PodWatchEvent I) × Ending)
    watched_pods namespace message opts = do
      opened ← read (api.watch namespace (watch_options opts))
      watch_opened message opened

    module _ (has_channel : Bool) where
      -- WatchPods; a channel may be nil.
      unfoldable pub watch_pods :
          (namespace : String)
          → Option WatchOptions
          → Exec client.World (List (PodWatchEvent I) × Ending)
      watch_pods namespace opts =
          when has_channel
          run watched_pods namespace
              ("failed to create pod watcher for namespace '" <> namespace <> "'") opts
          otherwise pure (refused (new_validation_error "eventsChan is required" nil))

      -- WatchAllPods
      unfoldable pub watch_all_pods :
          Option WatchOptions → Exec client.World (List (PodWatchEvent I) × Ending)
      watch_all_pods opts =
          when has_channel
          run watched_pods "" "failed to create all pods watcher" opts
          otherwise pure (refused (new_validation_error "eventsChan is required" nil))

  module _ (namespace pod_name : String) (opts : LogStreamOptions) where
    -- StreamLogs, from the choice of the container on
    unfoldable pub stream_container : Result String → Exec client.World (List PodLogLine × Ending)
    stream_container (err e) = pure (refused e)
    stream_container (ok container) = do
      opened ← read (api.stream namespace pod_name (pod_log_options container opts))
      pure (elim opened [
        | err e ↦ refused (
            new_internal_error
              ("failed to open log stream for pod " <> namespace <> "/" <> pod_name) (caused e))
        | ok scanned ↦ stream_logs_from_reader context_error container scanned
      ])

    -- StreamLogs, after the lookup of the pod
    unfoldable pub stream_pod : Result (Pod Q) → Exec client.World (List PodLogLine × Ending)
    stream_pod (err e) = pure (refused (new_not_found_error "pod" (namespace <> "/" <> pod_name)))
    stream_pod (ok pod) = stream_container (choose_container opts.container pod.containers)

    -- StreamLogs
    unfoldable pub stream_logs : Exec client.World (List PodLogLine × Ending)
    stream_logs =
        when namespace == ""
        run pure (refused (new_validation_error "namespace is required" nil))
        otherwise (when pod_name == ""
            run pure (refused (new_validation_error "pod name is required" nil))
            otherwise (do found ← read (client.get_pod namespace pod_name); stream_pod found))
