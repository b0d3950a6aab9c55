-- ===== src/Graph/Mutations/Tests.antt =====
-- The mutations over services that count their calls.
use k8s_pod_manager_graphql.Prelude.{ℕ, suc, ◌≡◌, refl, true, none, [], arith}
use k8s_pod_manager_graphql.Prelude.Int.{pos, ◌≤ℤ◌}
use k8s_pod_manager_graphql.Services.Errors.{new_internal_error, nil}
use k8s_pod_manager_graphql.Services.Types.{ScaleResult}
use k8s_pod_manager_graphql.Services.Client.{ok, err, returned}
use k8s_pod_manager_graphql.Services.Restart.{RestartResult}
use k8s_pod_manager_graphql.Graph.Validation.{default_input_validator}
use k8s_pod_manager_graphql.Graph.Errors.{create_graphql_error, bytes}
use k8s_pod_manager_graphql.Graph.Mutations.{
  Resolver, ResolverState, PodService, restart_pod, delete_pod, scale_deployment,
  scale_stateful_set,
}
use k8s_pod_manager_graphql.Graph.Responses.{
  restart_map, scale_map, restart_response, scale_deployment_response, scale_stateful_set_response,
}
use k8s_pod_manager_graphql.Graph.Responses.Laws.{responses_keep}
use k8s_pod_manager_graphql.Graph.Mutations.Laws.{
  IsAudited, IsTarget, IsUnserved, mutations-IsAudited, mutations_refused, scalings_refused,
}

abbrev restarted : RestartResult
restarted = record {
  success = true;
  message = "Rollout restart initiated for deployment";
  method = "rollout";
  controller_type = "Deployment";
  controller_name = "web";
  details = none;
  warning = "";
}

abbrev scaled : ScaleResult
scaled = record {
  success = true;
  message = "Deployment scaled";
  resource_type = "deployment";
  resource_name = "web";
  namespace = "prod";
  previous_replicas = pos 2;
  new_replicas = pos 5;
  action = "scaling-up-from-2-to-5";
}

abbrev services : PodService ℕ
services = record {
  restart_pod = λ namespace name user w. (returned (ok restarted), suc w);
  delete_pod = λ namespace name user w. (returned (err (new_internal_error "no" nil)), suc w);
  scale_deployment = λ namespace name n user w. (returned (ok scaled), suc w);
  scale_stateful_set = λ namespace name n user w. (returned (ok scaled), suc w);
}

abbrev pub resolver : Resolver ℕ
resolver = record {
  pod_service = services;
  validator = default_input_validator;
  handle_validation_error =
      λ text field. create_graphql_error "VALIDATION_ERROR" field (bytes text);
  handle_service_error = λ e operation. create_graphql_error "SERVICE_ERROR" operation [];
}

abbrev pub start : ResolverState ℕ
start = record { world = 0; log = [] }

mutations-IsAudited_example :
    IsAudited resolver "restartPod" "prod" "web-1" none start
      (restart_pod resolver "prod" "web-1" none start)
    × IsAudited resolver "deletePod" "prod" "web-1" none start
        (delete_pod resolver "prod" "web-1" none start)
    × IsAudited resolver "scaleDeployment" "prod" "web-1" none start
        (scale_deployment resolver "prod" "web-1" none (pos 5) start)
    × IsAudited resolver "scaleStatefulSet" "prod" "web-1" none start
        (scale_stateful_set resolver "prod" "web-1" none (pos 5) start)
mutations-IsAudited_example = mutations-IsAudited resolver "prod" "web-1" none (pos 5) start

not_a-IsTarget : ¬ IsTarget "kube-system" "web-1"
not_a-IsTarget (namespace, name) = namespace.not_system refl

mutations_refused_example :
    IsUnserved start (restart_pod resolver "kube-system" "web-1" none start)
    × IsUnserved start (delete_pod resolver "kube-system" "web-1" none start)
mutations_refused_example =
    mutations_refused resolver refl "kube-system" "web-1" none start not_a-IsTarget

too_many : ¬ (IsTarget "prod" "web-1" × ((pos 0 ≤ℤ pos 1001) × (pos 1001 ≤ℤ pos 1000)))
too_many (target, (lower, upper)) = absurd (ground arith)

scalings_refused_example :
    IsUnserved start (scale_deployment resolver "prod" "web-1" none (pos 1001) start)
    × IsUnserved start (scale_stateful_set resolver "prod" "web-1" none (pos 1001) start)
scalings_refused_example =
    scalings_refused resolver refl "prod" "web-1" none start (pos 1001) too_many

responses_keep_example :
    (restart_response "prod" "web-1" (restart_map restarted) ≡ record {
      message = "Rollout restart initiated for deployment";
      pod = "web-1";
      namespace = "prod";
      type = "";
      deployment = none;
      statefulset = none;
      controller = none;
      warning = none;
    })
    × (scale_deployment_response "prod" (scale_map scaled) ≡ record {
      message = "Deployment scaled";
      namespace = "prod";
      previous_replicas = pos 2;
      new_replicas = pos 5;
      action = "scale";
      deployment = none;
      statefulset = none;
    })
    × (scale_stateful_set_response "prod" (scale_map scaled)
        ≡ scale_deployment_response "prod" (scale_map scaled))
responses_keep_example = responses_keep "prod" "web-1" restarted scaled
