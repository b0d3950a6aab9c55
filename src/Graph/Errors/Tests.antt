-- ===== src/Graph/Errors/Tests.antt =====
-- The errors that clients see, at concrete errors.
use Prim.Native.String.{String}
use k8s_pod_manager_graphql.Prelude.{◌≡◌, refl, Bool, false, ◌==◌, [], ◌∷◌}
use k8s_pod_manager_graphql.Services.Errors.{
  GoError, Cause, service, pod_operation, external, nil, caused, new_not_found_error,
  new_conflict_error, new_validation_error, error_text,
}
use k8s_pod_manager_graphql.Graph.Errors.{ApiErrors, utf8, bytes, take, handle_service_error}
use k8s_pod_manager_graphql.Graph.Errors.Laws.{
  NeedsStatus, wraps_external, cause_external, is_sensitive, IsDetailed, handle_service_error_lem,
  code_of, service_errors_lose_type,
}

abbrev same : String → String
same t = t

-- The first status of the chain, as `errors.As` finds it
mutual
  has_reason : String → GoError → Bool
  has_reason r (service ty message c) = cause_has_reason r c
  has_reason r (pod_operation operation pod_name namespace reason c) = cause_has_reason r c
  has_reason r (external reason text) = reason == r

  cause_has_reason : String → Cause → Bool
  cause_has_reason r nil = false
  cause_has_reason r (caused e) = has_reason r e

mutual
  unfolding wraps_external cause_external has_reason cause_has_reason

  none_without : (r : String) (e : GoError) → wraps_external e ≡ false → has_reason r e ≡ false
  none_without r (service ty message c) h = none_in_cause r c h
  none_without r (pod_operation operation pod_name namespace reason c) h = none_in_cause r c h
  none_without r (external reason text) h = cc

  none_in_cause : (r : String) (c : Cause) → cause_external c ≡ false → cause_has_reason r c ≡ false
  none_in_cause r nil h = refl
  none_in_cause r (caused e) h = none_without r e h

abbrev by_reason : ApiErrors
by_reason = record {
  is_not_found = has_reason "NotFound";
  is_unauthorized = has_reason "Unauthorized";
  is_forbidden = has_reason "Forbidden";
  is_already_exists = has_reason "AlreadyExists";
  is_timeout = has_reason "Timeout";
}

by_reason-NeedsStatus : (e : GoError) → NeedsStatus by_reason e
by_reason-NeedsStatus e = record {
  not_found = none_without "NotFound" e;
  unauthorized = none_without "Unauthorized" e;
  forbidden = none_without "Forbidden" e;
  already_exists = none_without "AlreadyExists" e;
  timeout = none_without "Timeout" e;
}

abbrev leaking : GoError
leaking = external "NotFound" "secret not found"

handle_service_error_lem_example :
    IsDetailed by_reason
      (is_sensitive same (error_text leaking))
      leaking
      (handle_service_error same by_reason leaking "restartPod")
handle_service_error_lem_example = handle_service_error_lem same by_reason leaking "restartPod"

-- A character of three bytes, cut by `take` after the second of them
cut : take 4 (bytes "ab€") ≡ 97 ∷ 98 ∷ 226 ∷ 130 ∷ []
unfolding bytes utf8 take
cut = refl

service_errors_lose_type_example :
    (code_of same by_reason "restartPod" (new_not_found_error "pod" "prod/web") ≡ "SERVICE_ERROR")
    × (code_of same by_reason "restartPod" (new_conflict_error "no") ≡ "SERVICE_ERROR")
    × (code_of same by_reason "restartPod" (new_validation_error "no" nil) ≡ "SERVICE_ERROR")
service_errors_lose_type_example =
    service_errors_lose_type same by_reason by_reason-NeedsStatus "restartPod" "no" "pod" "prod/web"
