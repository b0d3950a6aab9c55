-- ===== src/Graph/Subscriptions/EndToEnd.antt =====
-- graph/schema.resolvers.go, StreamPodLogs, from the log of the container to the client: the call of the
-- service, its channel, the conversion and the channel of the client.
pub mod Tests
use k8s_pod_manager_graphql.Prelude.{String, ◌≡◌, ◌≢◌, refl, ap, sym, ◌∙◌, List, [], ◌∷◌, ◌++◌, map}
use mathlib.Core.List.{append_assoc, map-append}
use k8s_pod_manager_graphql.Services.Errors.{GoError}
use k8s_pod_manager_graphql.Services.Types.{Pod}
use k8s_pod_manager_graphql.Services.Client.{ok, Client, State}
use k8s_pod_manager_graphql.Services.Pods.Streams.{HasContainer, IsWanted}
use k8s_pod_manager_graphql.Services.Streaming as Streaming
use k8s_pod_manager_graphql.Services.Streaming.{LogStreamOptions, Scanned, StreamApi, stream_logs}
use k8s_pod_manager_graphql.Services.Streaming.Laws.{lines_before_end, line_of, stream_logs_lem}
use k8s_pod_manager_graphql.Graph.Converter.{PodLogLine, string_ptr, convert_pod_log_line}
use k8s_pod_manager_graphql.Graph.Subscriptions.{
  Converter, waiting, holding, finished, Subscription, live, new_subscription, Reach,
}
use k8s_pod_manager_graphql.Graph.Subscriptions.Order.{IsOrdered, Reach-IsSound}

-- A list that begins with what was received
abbrev pub Begins : {B : Type 0} → (received all : List B) → Type 0
Begins {B} received all = (later : List B) × (received ++ later ≡ all)

module _ {A B : Type 0} (convert : A → B) where
  Begins-of_ordered :
      (received events : List B) (c : Converter B) (service sent : List A)
      → IsOrdered convert received events c service sent
      → Begins received (map convert sent)
  Begins-of_ordered received events waiting service sent h = (_, h)
  Begins-of_ordered received events (holding b) service sent h = (_, h)
  Begins-of_ordered received events finished service sent (lost, h) = (_, h)

  -- Whatever a service has sent of a list, the client has received the beginning of it, converted.
  received-Begins :
      {s : Subscription A B} (rest all : List A)
      → Reach convert new_subscription (live s)
      → s.sent ++ rest ≡ all
      → Begins s.received (map convert all)
  received-Begins {s} rest all run e =
      let (later, h) =
        Begins-of_ordered s.received s.events.buffer s.converter s.service.buffer s.sent
          (Reach-IsSound convert run).order in
      (
        later ++ map convert rest,
        sym (append_assoc s.received later (map convert rest))
            ∙ ap (λ l. l ++ map convert rest) h
            ∙ sym (map-append convert s.sent rest)
            ∙ ap (map convert) e,
      )

-- A line as the client gets it
abbrev pub shown_line : (container text : String) → PodLogLine
shown_line container text = record { line = text; container = string_ptr container }

map-shown_line :
    (container : String) (texts : List String)
    → map convert_pod_log_line (map (line_of container) texts) ≡ map (shown_line container) texts
unfolding convert_pod_log_line
map-shown_line container [] = refl
map-shown_line container (text ∷ texts) =
    ap (shown_line container text ∷◌) (map-shown_line container texts)

module _ {Q : Type 0} (client : Client Q) (api : StreamApi Q client.World) (context_error : GoError)
    (namespace pod_name : String) (opts : LogStreamOptions) where
  -- For a pod that is found, with both names given, where the API opens the log of the container that is
  -- wanted, with the options asked for: in every state that a subscription reaches while its service has sent a beginning of what the call sends, the client has received a
  -- beginning of the lines that the wanted container wrote before the end of the log or of the context, in
  -- order, none twice and none left out between.
  pub received-stream_logs :
      (pod : Pod Q) (container : String) (scanned : List Scanned) (w : State client.World)
      {s : Subscription Streaming.PodLogLine PodLogLine} (rest : List Streaming.PodLogLine)
      → namespace ≢ ""
      → pod_name ≢ ""
      → (client.get_pod namespace pod_name w.world).0 ≡ ok pod
      → HasContainer container pod.containers
      → IsWanted opts.container container pod.containers
      → (api.stream namespace pod_name
          (record {
            container = container;
            follow = opts.follow;
            timestamps = opts.timestamps;
            tail_lines = opts.tail_lines;
            since_seconds = opts.since_seconds;
          })
          (client.get_pod namespace pod_name w.world).1).0
        ≡ ok scanned
      → Reach convert_pod_log_line new_subscription (live s)
      → s.sent ++ rest ≡ (stream_logs client api context_error namespace pod_name opts w).0.0
      → Begins s.received (map (shown_line container) (lines_before_end scanned))
  received-stream_logs pod container scanned w rest n p found has wanted opened run sent =
      let lines =
        (stream_logs_lem client api context_error namespace pod_name opts pod container scanned w n
          p found has wanted opened).0 in
      let (later, h) = received-Begins convert_pod_log_line rest _ run (sent ∙ lines) in
      (later, h ∙ map-shown_line container (lines_before_end scanned))
