-- ===== src/Lib.antt =====
-- A service that manages the pods of a Kubernetes cluster through GraphQL. A request reaches a resolver
-- (graph), which validates its input, calls a service (internal/services) and turns its outcome into a
-- response or an error; the services call the Kubernetes API. The resolvers audit what they do. The HTTP
-- middlewares (internal/middleware) are stacks that a server can put before the resolvers; main.go has
-- none of them.
--
-- Prelude           shared types and lemmas: the integers of Go as ℤ, with int32's wrap-around;
--                   maps as association lists (Prelude/GoMap); texts
-- Config            config/config.go: `load`, over an environment
-- Middleware/RateLimiter
--                   internal/middleware/rate_limiter.go: `allow`, `reset`, `cleanup`, `stop` are the
--                   methods Allow, Reset, cleanup and Stop. Each holds the mutex, so each is one step;
--                   Events runs any sequence of steps.
-- Middleware/RateLimit
--                   the middleware of the same file: `handle`, over any limiter and any rest of the
--                   chain; Serving joins it to the in-memory limiter.
-- Middleware/Chain  internal/middleware/builder.go: `execute_chain`, whose middlewares share one index;
--                   Chain/Stack has the five middlewares as actions of a chain, and the stacks
-- Middleware/Builder
--                   the builder of the same file: `call` has a clause for each of its methods, and the
--                   three stacks are sequences of calls
-- Middleware/ErrorHandler
--                   internal/middleware/error_handler.go: `handle_error` with the masking of internal
--                   errors and the panic of its log, and `recovered`, the recovery from a panic
-- Middleware/RequestId
--                   internal/middleware/request_id.go: `generate`, the identifiers of requests
-- Middleware/AuditLog
--                   internal/middleware/audit_logger.go: the database, silent, JSON and composite loggers
-- Middleware/Gin    internal/middleware/gin_adapter.go: the request, the response and Next, over gin's context
-- Services/Errors   internal/services/errors.go: the two error types and the chain that Unwrap walks
-- Services/Types    internal/services/types.go, interfaces.go: results, audit records, API objects
-- Services/Client   internal/kubernetes/client.go as an interface: the API server is a parameter with
--                   a state of its own. An action returns its result and a trace of the writes; Traces
--                   has the lemmas on it.
-- Services/Controller
--                   internal/services/controller.go: `detect_controller`, `can_restart`,
--                   `get_restart_method`
-- Services/Restart  internal/services/restart_orchestrator.go: `restart_pod` and its three methods
-- Services/Workload internal/services/deployment_service_impl.go and statefulset_service_impl.go:
--                   `scale` and `rollout_restart`, for both kinds of workload at once
-- Services/Selectors
--                   buildListOptions of the four services that list objects, and buildWatchOptions
-- Services/Lists    what these services list and look up: `list_pods`, `list_all_pods`, `get_pod`,
--                   `list_workloads`, `list_namespaces`, `get_namespace`
-- Services/Pods     internal/services/pod_service_impl.go: `delete_pod`, `restart_audited` (RestartPod),
--                   `process_watch_events`, and the container that StreamLogs chooses
-- Services/Streaming
--                   the same file: `watch_pods`, `watch_all_pods`, `stream_logs`
-- Services/Converter
--                   internal/services/pod_converter.go: `extract_container_info`, and the controller
--                   that a listing shows
-- Services/PodInfo  the same file: `convert_pod` and the usage of resources
-- Services/Age      formatDuration of pod_converter.go and of namespace_service_impl.go; the record
--                   Duration holds what the methods of a time.Duration say
-- Services/Sample   a cluster for the tests
-- Graph/Validation  graph/validation.go: one check per method, and the matcher of the regular
--                   expression of resource names
-- Graph/Errors      graph/errors.go: `handle_service_error` and `sanitize_error_message`,
--                   whose details are bytes
-- Graph/Responses   graph/resolver.go and graph/schema.resolvers.go: from a result over the adapter's map
--                   to the response
-- Graph/Mutations   graph/schema.resolvers.go: the four mutations
-- Graph/Adapter     graph/resolver.go: the adapter and the default resolver, which join the mutations to
--                   the services
-- Graph/Converter   graph/converters.go: the objects of the services as those of the schema
-- Graph/Queries     graph/schema.resolvers.go: the six queries; Queries/Adapter joins them to the services
-- Graph/Audit       graph/audit.go: the audit loggers of the resolvers and the rows that they store
-- Graph/Subscriptions
--                   graph/schema.resolvers.go: the goroutines and channels of a subscription, as a step
--                   relation; Subscriptions/Start has the checks and audit records around them, and
--                   Subscriptions/EndToEnd joins them to the service and the converter
-- Graph/Health      graph/health.go: the cache in front of the health service, which Health/Service has; a
--                   request has the clock readings and calls of its time, one after the other
--
-- The loops of the modelled code run over a list or a text, without fuel. Only a chain takes fuel, as
-- much as it has middlewares, since each call of Next passes one or leaves the chain; and the printing
-- of a number in Prelude/Text, the number plus one, which is more than its digits.
-- Contexts, log lines (but that the log of HandleError can panic), metrics and times of audit records leave no trace in the model, but for the lines
-- that graph/audit.go prints. strings.Title, strings.ToLower, the parsers of strconv, the quantities of the
-- API and its predicates on errors are parameters; the order of a map is that of its list. Not modelled: main.go,
-- the database and its migrations, the service factory, the handlers that a build tag excludes, and
-- everything else that only calls a library or is generated.
pub mod Prelude
pub mod Middleware
pub mod Services
pub mod Graph
pub mod Config
