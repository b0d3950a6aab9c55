-- ===== src/Graph/Responses/Laws.antt =====
-- What of a result reaches a client.
use k8s_pod_manager_graphql.Prelude.{String, ◌≡◌, refl, none, some, arith, ◌==◌, if◌then◌else◌}
use k8s_pod_manager_graphql.Prelude.GoMap.{lookup}
use k8s_pod_manager_graphql.Services.Types.{ScaleResult}
use k8s_pod_manager_graphql.Services.Restart.{RestartResult}
use k8s_pod_manager_graphql.Graph.Responses.{
  as_string, as_int32, restart_map, scale_map, text_unless_empty, restart_response,
  scale_deployment_response, scale_stateful_set_response, string_or, non_empty, int_or_zero,
}

-- The response to a restart carries the message and the warning of the result, and nothing else of
-- it: its type stays empty, and no Deployment, StatefulSet or controller is named.
restart_response-restart_map :
    (namespace name : String) (result : RestartResult)
    → restart_response namespace name (restart_map result) ≡ record {
      message = result.message;
      pod = name;
      namespace = namespace;
      type = "";
      deployment = none;
      statefulset = none;
      controller = none;
      warning = if result.warning == "" then none else some result.warning;
    }
unfolding restart_response restart_map text_unless_empty as_string string_or non_empty lookup
restart_response-restart_map namespace name result = ground arith

-- The response to a scaling carries the message and both numbers, and nothing else of the result:
-- its action is always "scale", and neither a Deployment nor a StatefulSet is named.
scale_response-scale_map :
    (namespace : String) (result : ScaleResult)
    → (scale_deployment_response namespace (scale_map result) ≡ record {
      message = result.message;
      namespace = namespace;
      previous_replicas = result.previous_replicas;
      new_replicas = result.new_replicas;
      action = "scale";
      deployment = none;
      statefulset = none;
    })
      × (scale_stateful_set_response namespace (scale_map result)
          ≡ scale_deployment_response namespace (scale_map result))
unfolding scale_deployment_response scale_stateful_set_response scale_map as_string as_int32
    string_or non_empty int_or_zero lookup
scale_response-scale_map namespace result = (refl, refl)

-- The response to a restart carries the message and the warning of the result: its type stays empty, and no
-- Deployment, StatefulSet or controller is named. The response to a scaling of either kind carries the
-- message and both numbers: its action is always "scale", and no Deployment or StatefulSet is named.
pub responses_keep :
    (namespace name : String) (restarted : RestartResult) (scaled : ScaleResult)
    → (restart_response namespace name (restart_map restarted) ≡ record {
      message = restarted.message;
      pod = name;
      namespace = namespace;
      type = "";
      deployment = none;
      statefulset = none;
      controller = none;
      warning = if restarted.warning == "" then none else some restarted.warning;
    })
      × (scale_deployment_response namespace (scale_map scaled) ≡ record {
        message = scaled.message;
        namespace = namespace;
        previous_replicas = scaled.previous_replicas;
        new_replicas = scaled.new_replicas;
        action = "scale";
        deployment = none;
        statefulset = none;
      })
      × (scale_stateful_set_response namespace (scale_map scaled)
          ≡ scale_deployment_response namespace (scale_map scaled))
responses_keep namespace name restarted scaled =
    let (deployment, stateful_set) = scale_response-scale_map namespace scaled in
    (restart_response-restart_map namespace name restarted, deployment, stateful_set)
