-- ===== src/Middleware/Builder/Laws.antt =====
-- What the builder builds.
use k8s_pod_manager_graphql.Prelude.{
  ◌≡◌, ap, sym, ◌∙◌, Option, none, some, List, [], ◌∷◌, ◌++◌, map, All,
}
use mathlib.Core.List.{append_assoc, append-nil, map-append}
use k8s_pod_manager_graphql.Middleware.Builder.{
  Parts, Built, request_id, logging, rate_limit, recovery, error_handling, custom, Builder,
  new_middleware_builder, Call, add_request_id, add_logging, add_rate_limit, add_recovery,
  add_error_handling, add_custom, or_else, add_limited, add_handled, call, calls, build,
}

-- The kinds of the middlewares
pub data Kind : Type 0 where
  request_ids logs limits recoveries errors customs : Kind

abbrev pub IsSome : {X : Type 0} → Option X → Type 0
IsSome none = ⊥
IsSome (some x) = Unit

IsSome-or_else : {X : Type 0} (o : Option X) (x : X) → IsSome (or_else o x)
unfolding or_else
IsSome-or_else none x = tt
IsSome-or_else (some y) x = tt

module _ {L A R E M : Type 0} where
  abbrev pub kind_of : Built L A R E M → Kind
  kind_of (request_id header) = request_ids
  kind_of (logging logger audit_logger skip_paths) = logs
  kind_of (rate_limit limiter skip_paths logger) = limits
  kind_of (recovery handler logger include_stack_trace) = recoveries
  kind_of (error_handling handler) = errors
  kind_of (custom m) = customs

  -- A rate limit has a limiter, and error handling has a handler.
  abbrev pub IsComplete : Built L A R E M → Type 0
  IsComplete (rate_limit limiter skip_paths logger) = IsSome limiter
  IsComplete (error_handling handler) = IsSome handler
  IsComplete (request_id header) = Unit
  IsComplete (logging logger audit_logger skip_paths) = Unit
  IsComplete (recovery handler logger include_stack_trace) = Unit
  IsComplete (custom m) = Unit

  -- The kinds of middlewares that calls add
  abbrev pub added : Call L A R E M → List Kind
  added add_request_id = request_ids ∷ []
  added (add_logging skip_paths) = logs ∷ []
  added (add_rate_limit skip_paths) = limits ∷ []
  added (add_recovery include_stack_trace) = recoveries ∷ []
  added add_error_handling = errors ∷ []
  added (add_custom m) = customs ∷ []
  added _ = []

  abbrev pub all_added : List (Call L A R E M) → List Kind
  all_added [] = []
  all_added (c ∷ cs) = added c ++ all_added cs

  All-snoc :
      (ms : List (Built L A R E M)) (m : Built L A R E M)
      → All IsComplete ms
      → IsComplete m
      → All IsComplete (ms ++ m ∷ [])
  All-snoc [] m h k = (k, tt)
  All-snoc (x ∷ ms) m h k = (h.0, All-snoc ms m h.1 k)

  module _ (parts : Parts L A R E) where
    call-IsComplete :
        (c : Call L A R E M) (b : Builder L A R E M)
        → All IsComplete b.middlewares
        → All IsComplete (call parts c b).middlewares
    unfolding call add_limited add_handled
    call-IsComplete add_request_id b h = All-snoc b.middlewares _ h tt
    call-IsComplete (add_logging skip_paths) b h = All-snoc b.middlewares _ h tt
    call-IsComplete (add_rate_limit skip_paths) b h =
        All-snoc b.middlewares _ h (IsSome-or_else b.rate_limiter _)
    call-IsComplete (add_recovery include_stack_trace) b h = All-snoc b.middlewares _ h tt
    call-IsComplete add_error_handling b h =
        All-snoc b.middlewares _ h (IsSome-or_else b.error_handler _)
    call-IsComplete (add_custom m) b h = All-snoc b.middlewares _ h tt
    call-IsComplete _ b h = h

    kinds-call :
        (c : Call L A R E M) (b : Builder L A R E M)
        → map kind_of (call parts c b).middlewares ≡ map kind_of b.middlewares ++ added c
    unfolding call add_limited add_handled
    kinds-call add_request_id b = map-append kind_of b.middlewares _
    kinds-call (add_logging skip_paths) b = map-append kind_of b.middlewares _
    kinds-call (add_rate_limit skip_paths) b = map-append kind_of b.middlewares _
    kinds-call (add_recovery include_stack_trace) b = map-append kind_of b.middlewares _
    kinds-call add_error_handling b = map-append kind_of b.middlewares _
    kinds-call (add_custom m) b = map-append kind_of b.middlewares _
    kinds-call _ b = sym (append-nil _)

    calls_lem :
        (cs : List (Call L A R E M)) (b : Builder L A R E M)
        → All IsComplete b.middlewares
        → All IsComplete (calls parts cs b).middlewares
          × (map kind_of (calls parts cs b).middlewares ≡ map kind_of b.middlewares ++ all_added cs)
    unfolding calls
    calls_lem [] b h = (h, sym (append-nil _))
    calls_lem (c ∷ cs) b h =
        let (complete, kinds) = calls_lem cs (call parts c b) (call-IsComplete c b h) in
        (
          complete,
          kinds
              ∙ ap (λ ks. ks ++ all_added cs) (kinds-call c b)
              ∙ append_assoc (map kind_of b.middlewares) (added c) (all_added cs),
        )

    -- Whatever calls are made, and in whatever order, the builder adds one middleware of its kind for each
    -- Add method, in order, and no rate limit or error handling without its limiter or handler.
    pub build-IsComplete :
        (cs : List (Call L A R E M))
        → All IsComplete (build parts cs) × (map kind_of (build parts cs) ≡ all_added cs)
    unfolding build new_middleware_builder
    build-IsComplete cs = calls_lem cs new_middleware_builder tt
