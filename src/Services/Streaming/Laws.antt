-- ===== src/Services/Streaming/Laws.antt =====
-- What streaming logs and watching pods guarantee.
use k8s_pod_manager_graphql.Prelude.{
  if◌then◌else◌, Bool-cases, inl, inr, Option, String, ◌≡◌, refl, ap, ◌≢◌, false, none, some, List,
  [], ◌∷◌, map, ◌==◌, eq_iff, arith,
}
use k8s_pod_manager_graphql.Services.Errors.{GoError}
use k8s_pod_manager_graphql.Services.Types.{Pod}
use k8s_pod_manager_graphql.Services.Client.{Result, ok, err, Client, State}
use k8s_pod_manager_graphql.Services.Controller.{ControllerInfo}
use k8s_pod_manager_graphql.Services.Selectors.{WatchOptions}
use k8s_pod_manager_graphql.Services.Pods.{Received, choose_container}
use k8s_pod_manager_graphql.Services.Pods.Streams.{
  HasContainer, IsWanted, choose_container_iff, process_watch_events_lem,
}
use k8s_pod_manager_graphql.Services.Streaming.{
  LogStreamOptions, PodLogLine, Scanned, line, cancelled, ended, StreamApi, pod_log_options,
  watch_options, watch_opened, watched_pods, stream_logs_from_reader, stream_container, stream_pod,
  stream_logs,
}

-- The lines that the scanner gives before the context or the log ends
abbrev pub lines_before_end : List Scanned → List String
lines_before_end [] = []
lines_before_end (line text ∷ rest) = text ∷ lines_before_end rest
lines_before_end (cancelled text ∷ rest) = []
lines_before_end (ended e ∷ rest) = []

abbrev pub line_of : (container text : String) → PodLogLine
line_of container text = record { line = text; container = container }

lines-stream_logs_from_reader :
    (context_error : GoError) (container : String) (scanned : List Scanned)
    → (stream_logs_from_reader context_error container scanned).0
      ≡ map (line_of container) (lines_before_end scanned)
unfolding stream_logs_from_reader
lines-stream_logs_from_reader c container [] = refl
lines-stream_logs_from_reader c container (line text ∷ rest) =
    ap (λ ls. line_of container text ∷ ls) (lines-stream_logs_from_reader c container rest)
lines-stream_logs_from_reader c container (cancelled text ∷ rest) = refl
lines-stream_logs_from_reader c container (ended none ∷ rest) = refl
lines-stream_logs_from_reader c container (ended (some e) ∷ rest) = refl

not_empty : (s : String) → s ≢ "" → (s == "") ≡ false
not_empty s h = ground (arith, eq_iff s "")

module _ {Q : Type 0} (client : Client Q) (api : StreamApi Q client.World) (context_error : GoError)
    (namespace pod_name : String) (opts : LogStreamOptions) where
  lines-stream_container :
      (container : String) (scanned : List Scanned) (s : State client.World)
      → (api.stream namespace pod_name (pod_log_options container opts) s.world).0 ≡ ok scanned
      → ((stream_container client api context_error namespace pod_name opts (ok container) s).0.0
          ≡ map (line_of container) (lines_before_end scanned))
        × ((stream_container client api context_error namespace pod_name opts
              (ok container)
              s).1.trace
            ≡ s.trace)
  unfolding stream_container
  lines-stream_container container scanned s h = (
    rw (h, stream_container) (lines-stream_logs_from_reader context_error container scanned),
    refl,
  )

  -- For a pod that is found, with both names given: if the API opens the log of the container that is wanted,
  -- with the options asked for, its lines are sent in order, up to the end of the log or of the context, and
  -- nothing is written to the cluster.
  pub stream_logs_lem :
      (pod : Pod Q) (container : String) (scanned : List Scanned) (s : State client.World)
      → namespace ≢ ""
      → pod_name ≢ ""
      → (client.get_pod namespace pod_name s.world).0 ≡ ok pod
      → HasContainer container pod.containers
      → IsWanted opts.container container pod.containers
      → (api.stream namespace pod_name
          (record {
            container = container;
            follow = opts.follow;
            timestamps = opts.timestamps;
            tail_lines = opts.tail_lines;
            since_seconds = opts.since_seconds;
          })
          (client.get_pod namespace pod_name s.world).1).0
        ≡ ok scanned
      → ((stream_logs client api context_error namespace pod_name opts s).0.0
          ≡ map (line_of container) (lines_before_end scanned))
        × ((stream_logs client api context_error namespace pod_name opts s).1.trace ≡ s.trace)
  unfolding stream_logs stream_pod pod_log_options
  stream_logs_lem pod container scanned s n p found has wanted opened =
      rw
        (
          not_empty namespace n,
          not_empty pod_name p,
          stream_logs,
          found,
          stream_pod,
          (choose_container_iff opts.container container pod.containers).1 (has, wanted),
        )
        (lines-stream_container container scanned
          (record s { world = (client.get_pod namespace pod_name s.world).1 }) opened)

module _ {Q : Type 0} (client : Client Q) (api : StreamApi Q client.World)
    (context_error : GoError) where
  module _ (namespace pod_name : String) (opts : LogStreamOptions) where
    trace-stream_container :
        (chosen : Result String) (s : State client.World)
        → (stream_container client api context_error namespace pod_name opts chosen s).1.trace
          ≡ s.trace
    unfolding stream_container
    trace-stream_container (err e) s = refl
    trace-stream_container (ok container) s = refl

    trace-stream_pod :
        (found : Result (Pod Q)) (s : State client.World)
        → (stream_pod client api context_error namespace pod_name opts found s).1.trace ≡ s.trace
    unfolding stream_pod
    trace-stream_pod (err e) s = refl
    trace-stream_pod (ok pod) s =
        trace-stream_container (choose_container opts.container pod.containers) s

    pub trace-stream_logs :
        (s : State client.World)
        → (stream_logs client api context_error namespace pod_name opts s).1.trace ≡ s.trace
    unfolding stream_logs
    trace-stream_logs s = elim (Bool-cases (namespace == "")) [
      | inl e ↦ rw (e, stream_logs) refl
      | inr n ↦ elim (Bool-cases (pod_name == "")) [
        | inl e ↦ rw (n, stream_logs) (rw (e, if◌then◌else◌) refl)
        | inr p ↦
            rw (n, stream_logs)
              (rw (p, if◌then◌else◌)
                (trace-stream_pod (client.get_pod namespace pod_name s.world).0
                  (record s { world = (client.get_pod namespace pod_name s.world).1 })))
      ]
    ]

  module _ {I : Type 0} (title : String → String) (convert : Pod Q → ControllerInfo → I) where
    trace-watch_opened :
        (message : String) (opened : Result (List (Received Q))) (s : State client.World)
        → (watch_opened client api context_error title convert message opened s).1.trace ≡ s.trace
    unfolding watch_opened
    trace-watch_opened message (err e) s = refl
    trace-watch_opened message (ok received) s =
        (process_watch_events_lem client title convert context_error received s).1

    pub trace-watched_pods :
        (namespace message : String) (opts : Option WatchOptions) (s : State client.World)
        → (watched_pods client api context_error title convert namespace message opts s).1.trace
          ≡ s.trace
    unfolding watched_pods
    trace-watched_pods namespace message opts s =
        trace-watch_opened message (api.watch namespace (watch_options opts) s.world).0
          (record s { world = (api.watch namespace (watch_options opts) s.world).1 })
