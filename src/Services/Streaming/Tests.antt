-- ===== src/Services/Streaming/Tests.antt =====
-- The log of a pod with two lines, of which the second comes after the end of the context.
use k8s_pod_manager_graphql.Prelude.{
  ℕ, suc, ◌≡◌, refl, true, none, some, List, [], ◌∷◌, map, inl, inr, arith, eq_iff,
}
use k8s_pod_manager_graphql.Prelude.Int.{pos}
use k8s_pod_manager_graphql.Services.Errors.{GoError, external}
use k8s_pod_manager_graphql.Services.Client.{ok}
use k8s_pod_manager_graphql.Services.Streaming.{
  LogStreamOptions, Scanned, line, cancelled, StreamApi, stream_logs,
}
use k8s_pod_manager_graphql.Services.Streaming.Laws.{lines_before_end, line_of, stream_logs_lem}
use k8s_pod_manager_graphql.Services.Sample.{agent, cluster, start}

abbrev pub log : List Scanned
log = line "started" ∷ cancelled "ready" ∷ []

abbrev pub api : StreamApi ℕ ℕ
api = record {
  watch = λ namespace opts w. (ok [], suc w);
  stream = λ namespace pod_name opts w. (ok log, suc w);
}

abbrev pub context_canceled : GoError
context_canceled = external "Canceled" "context canceled"

abbrev pub following : LogStreamOptions
following = record {
  container = "proxy";
  follow = true;
  tail_lines = some (pos 100);
  since_seconds = none;
  timestamps = true;
}

stream_logs_lem_example :
    ((stream_logs cluster api context_canceled "prod" "agent-1" following start).0.0
      ≡ map (line_of "proxy") (lines_before_end log))
    × ((stream_logs cluster api context_canceled "prod" "agent-1" following start).1.trace
        ≡ start.trace)
stream_logs_lem_example =
    stream_logs_lem cluster api context_canceled "prod" "agent-1" following agent "proxy" log start
      (ground (arith, eq_iff "prod" "")) (ground (arith, eq_iff "agent-1" "")) refl (inr (inl refl))
      (inl (ground (arith, eq_iff "proxy" ""), refl)) refl
