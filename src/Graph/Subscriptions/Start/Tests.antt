-- ===== src/Graph/Subscriptions/Start/Tests.antt =====
-- A subscription to a valid namespace and the log of a reserved pod.
use k8s_pod_manager_graphql.Prelude.{List, []}
use k8s_pod_manager_graphql.Prelude.Text.{◌<>◌}
use k8s_pod_manager_graphql.Graph.Validation.{default_input_validator}
use k8s_pod_manager_graphql.Graph.Validation.Laws.{IsNamespace, IsPodName}
use k8s_pod_manager_graphql.Graph.Errors.{handle_validation_error}
use k8s_pod_manager_graphql.Graph.Audit.{SubscriptionRecord}
use k8s_pod_manager_graphql.Graph.Subscriptions.Start.{
  watch_pods_call, watch_all_pods_call, watch_pods, watch_all_pods, stream_pod_logs,
}
use k8s_pod_manager_graphql.Graph.Subscriptions.Start.Laws.{
  IsLogged, following_calls, subscriptions-IsLogged,
}

abbrev no_records : List SubscriptionRecord
no_records = []

subscriptions-IsLogged_example :
    IsLogged
      (IsNamespace "prod")
      "watchPods"
      "prod"
      "prod"
      (watch_pods_call "prod")
      no_records
      (watch_pods default_input_validator handle_validation_error "prod" no_records)
    × IsLogged Unit "watchAllPods" "all" "all" watch_all_pods_call no_records
        (watch_all_pods default_input_validator handle_validation_error no_records)
    × IsLogged
        (IsNamespace "prod" × IsPodName "kube-proxy")
        "streamPodLogs"
        "prod"
        ("prod" <> "/" <> "kube-proxy")
        (following_calls "prod" "kube-proxy")
        no_records
        (stream_pod_logs default_input_validator handle_validation_error "prod" "kube-proxy"
          no_records)
subscriptions-IsLogged_example =
    subscriptions-IsLogged handle_validation_error "prod" "kube-proxy" no_records
