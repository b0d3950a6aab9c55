-- ===== src/Graph/Subscriptions/EndToEnd/Tests.antt =====
-- A client that has received the first line of a log.
use k8s_pod_manager_graphql.Prelude.{◌≡◌, refl, false, inl, inr, [], ◌∷◌, map, arith, eq_iff}
use k8s_pod_manager_graphql.Services.Pods.{choose_container, default_container}
use k8s_pod_manager_graphql.Services.Streaming as Streaming
use k8s_pod_manager_graphql.Services.Streaming.{stream_logs, stream_logs_from_reader}
use k8s_pod_manager_graphql.Services.Streaming.Laws.{lines_before_end, line_of}
use k8s_pod_manager_graphql.Services.Streaming.Tests.{log, api, context_canceled, following}
use k8s_pod_manager_graphql.Services.Sample.{agent, cluster, start}
use k8s_pod_manager_graphql.Graph.Converter.{PodLogLine, convert_pod_log_line}
use k8s_pod_manager_graphql.Graph.Subscriptions.{
  Subscription, waiting, active, live, new_subscription, Reach, here, next, send, take, deliver,
  receive,
}
use k8s_pod_manager_graphql.Graph.Subscriptions.EndToEnd.{Begins, shown_line, received-stream_logs}

abbrev first : Streaming.PodLogLine
first = line_of "proxy" "started"

abbrev got : Subscription Streaming.PodLogLine PodLogLine
got = record {
  service = record { buffer = []; is_closed = false };
  events = record { buffer = []; is_closed = false };
  producer = active;
  converter = waiting;
  cancelled = false;
  sent = first ∷ [];
  received = convert_pod_log_line first ∷ [];
}

-- The line is sent, taken, converted, passed on and received.
got-Reach : Reach convert_pod_log_line new_subscription (live got)
got-Reach =
    next
      (next (next (next here (send first refl refl (omega arith))) (take first [] refl refl))
        (deliver (convert_pod_log_line first) refl refl (omega arith)))
      (receive (convert_pod_log_line first) [] refl)

sent_all :
    first ∷ [] ≡ (stream_logs cluster api context_canceled "prod" "agent-1" following start).0.0
unfolding stream_logs Streaming.stream_pod Streaming.stream_container choose_container
    default_container stream_logs_from_reader
sent_all = refl

received-stream_logs_example : Begins got.received (map (shown_line "proxy") (lines_before_end log))
received-stream_logs_example =
    received-stream_logs cluster api context_canceled "prod" "agent-1" following agent "proxy" log
      start {s = got} [] (ground (arith, eq_iff "prod" "")) (ground (arith, eq_iff "agent-1" ""))
      refl (inr (inl refl)) (inl (ground (arith, eq_iff "proxy" ""), refl)) refl got-Reach sent_all
