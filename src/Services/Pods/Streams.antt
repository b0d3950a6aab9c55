-- ===== src/Services/Pods/Streams.antt =====
-- What watching pods and choosing a container for logs guarantee.
use k8s_pod_manager_graphql.Prelude.{
  String, ◌≡◌, refl, ◌≢◌, ◌⊎◌, ◌↔◌, ◌∙◌, true, Option, none, some, List, [], ◌∷◌, ◌==◌, eq_iff,
  arith, any, sym, Bool, Bool-cases, Option-cases, inl, inr, ◌||◌,
}
use k8s_pod_manager_graphql.Services.Errors.{GoError}
use k8s_pod_manager_graphql.Services.Types.{
  Pod, Container, StateDetail, ContainerStatus, PodCondition,
}
use k8s_pod_manager_graphql.Services.Client.{ok, Client, State}
use k8s_pod_manager_graphql.Services.Controller.{ControllerInfo, detect_controller}
use k8s_pod_manager_graphql.Services.Restart.Laws.{trace-detect_controller}
use k8s_pod_manager_graphql.Services.Pods.{
  explains, condition_details, status_details, extract_event_details, Received, event, closed,
  cancelled, cancelled_in_send, PodWatchEvent, watch_event, process_watch_events, default_container,
  choose_container,
}

-- The pods of the events that come before the end of a watch
abbrev pub pods_before_end : {Q : Type 0} → List (Received Q) → List (String × Pod Q)
pods_before_end [] = []
pods_before_end (cancelled ∷ rest) = []
pods_before_end (closed ∷ rest) = []
pods_before_end (event type none ∷ rest) = pods_before_end rest
pods_before_end (event type (some pod) ∷ rest) = (type, pod) ∷ pods_before_end rest
pods_before_end (cancelled_in_send type pod ∷ rest) = []

-- The pod has ended.
abbrev pub HasEnded : {Q : Type 0} → Pod Q → Type 0
HasEnded pod = (pod.phase ≡ "Failed") ⊎ (pod.phase ≡ "Succeeded")

-- The reason and the message of the first container: those of its termination, or else those of its wait
abbrev pub IsFirstState : List ContainerStatus → String → String → Type 0
IsFirstState [] reason message = ⊥
IsFirstState (status ∷ statuses) reason message =
    ((t : StateDetail) × (status.terminated ≡ some t) × (reason ≡ t.reason) × (message ≡ t.message))
    ⊎ ((status.terminated ≡ none)
        × ((w : StateDetail) × (status.waiting ≡ some w)
            × (reason ≡ w.reason)
            × (message ≡ w.message)))

-- The first container, if there is one, has neither ended nor does it wait.
abbrev pub HasNoState : List ContainerStatus → Type 0
HasNoState [] = Unit
HasNoState (status ∷ statuses) = (status.terminated ≡ none) × (status.waiting ≡ none)

-- The condition is false, with a reason.
abbrev pub IsFailing : PodCondition → Type 0
IsFailing condition = (condition.status ≡ "False") × (condition.reason ≢ "")

-- The reason and the message of the first failing condition, or empty texts if there is none
abbrev pub IsFirstFailing : List PodCondition → String → String → Type 0
IsFirstFailing [] reason message = (reason ≡ "") × (message ≡ "")
IsFirstFailing (condition ∷ conditions) reason message =
    (IsFailing condition × (reason ≡ condition.reason) × (message ≡ condition.message))
    ⊎ ((¬ IsFailing condition) × IsFirstFailing conditions reason message)

-- The details of a pod: those of the first container of a pod that has ended, where it has any, and those of
-- the conditions for any other pod
abbrev pub AreDetails : {Q : Type 0} → Pod Q → String → String → Type 0
AreDetails pod reason message =
    (HasEnded pod × IsFirstState pod.container_statuses reason message)
    ⊎ (((¬ HasEnded pod) ⊎ HasNoState pod.container_statuses)
        × IsFirstFailing pod.conditions reason message)

explains_iff : (condition : PodCondition) → (explains condition ≡ true) ↔ IsFailing condition
unfolding explains
explains_iff condition = ground (arith, eq_iff condition.status "False", eq_iff condition.reason "")

condition_details_lem :
    (conditions : List PodCondition)
    → IsFirstFailing conditions (condition_details conditions).0 (condition_details conditions).1
unfolding condition_details
condition_details_lem [] = (refl, refl)
condition_details_lem (condition ∷ conditions) = elim (Bool-cases (explains condition)) [
  | inl h ↦ rw h (inl ((explains_iff condition).0 h, refl, refl))
  | inr h ↦ rw h (
      inr (
        (λ f. let p = sym h ∙ (explains_iff condition).1 f in absurd cc),
        condition_details_lem conditions,
      ))
]

-- What a container's status says of its state
abbrev AreStatusDetails : List ContainerStatus → Option (String × String) → Type 0
AreStatusDetails statuses none = HasNoState statuses
AreStatusDetails statuses (some (reason, message)) = IsFirstState statuses reason message

status_details_lem :
    (statuses : List ContainerStatus) → AreStatusDetails statuses (status_details statuses)
unfolding status_details
status_details_lem [] = tt
status_details_lem (status ∷ statuses) = elim (Option-cases status.terminated) [
  | inr (t, e) ↦ rw e (inl (t, refl, refl, refl))
  | inl e ↦ rw e (elim (Option-cases status.waiting) [
    | inr (w, f) ↦ rw f (inr (refl, (w, refl, refl, refl)))
    | inl f ↦ rw f (refl, refl)
  ])
]

has_ended : {Q : Type 0} → Pod Q → Bool
has_ended pod = pod.phase == "Failed" || pod.phase == "Succeeded"

has_ended_iff : {Q : Type 0} (pod : Pod Q) → (has_ended pod ≡ true) ↔ HasEnded pod
unfolding has_ended
has_ended_iff pod = ground (arith, eq_iff pod.phase "Failed", eq_iff pod.phase "Succeeded")

AreDetails-of_ended :
    {Q : Type 0} (pod : Pod Q) (details : Option (String × String))
    → HasEnded pod
    → AreStatusDetails pod.container_statuses details
    → (let chosen : String × String = elim details [
      | some d ↦ d
      | none ↦ condition_details pod.conditions
    ] in
        AreDetails pod chosen.0 chosen.1)
AreDetails-of_ended pod (some (reason, message)) ended h = inl (ended, h)
AreDetails-of_ended pod none ended h = inr (inr h, condition_details_lem pod.conditions)

extract_event_details-AreDetails :
    {Q : Type 0} (pod : Pod Q)
    → AreDetails pod (extract_event_details pod).0 (extract_event_details pod).1
unfolding extract_event_details has_ended
extract_event_details-AreDetails pod = elim (Bool-cases (has_ended pod)) [
  | inl h ↦ rw h (
      AreDetails-of_ended pod (status_details pod.container_statuses) ((has_ended_iff pod).0 h)
        (status_details_lem pod.container_statuses))
  | inr h ↦ rw h (
      inr (
        inl (λ f. let p = sym h ∙ (has_ended_iff pod).1 f in absurd cc),
        condition_details_lem pod.conditions,
      ))
]

module _ {Q I : Type 0} (client : Client Q) (title : String → String)
    (convert : Pod Q → ControllerInfo → I) (context_error : GoError) where
  -- The events are those of the pods, in their order: each has the type, the pod converted with the controller
  -- that a lookup finds, and the details of the pod. The lookups run one after the other, from `s`.
  abbrev pub AreEvents :
      List (PodWatchEvent I) → List (String × Pod Q) → State client.World → Type 0
  AreEvents [] [] s = Unit
  AreEvents [] (p ∷ ps) s = ⊥
  AreEvents (e ∷ es) [] s = ⊥
  AreEvents (e ∷ es) ((type, pod) ∷ ps) s =
      (e.type ≡ type)
      × (e.pod ≡ convert pod (detect_controller title client pod s).0)
      × AreDetails pod e.reason e.message
      × AreEvents es ps (detect_controller title client pod s).1

  abbrev pub watched :
      List (Received Q)
      → State client.World
      → (List (PodWatchEvent I) × Option GoError) × State client.World
  watched = process_watch_events client title convert context_error

  trace-watch_event :
      (type : String) (pod : Pod Q) (s : State client.World)
      → (watch_event client title convert type pod s).1.trace ≡ s.trace
  unfolding watch_event
  trace-watch_event type pod s = trace-detect_controller client "" title pod s

  -- A watch sends one event for each pod that it receives before it ends, in their order: the pod that was
  -- received, converted with its controller, the type of the event, and the details that its first container
  -- or its conditions give. It passes over objects that are no pods, and writes nothing to the cluster.
  pub process_watch_events_lem :
      (rs : List (Received Q)) (s : State client.World)
      → AreEvents (watched rs s).0.0 (pods_before_end rs) s × ((watched rs s).1.trace ≡ s.trace)
  unfolding process_watch_events watch_event
  process_watch_events_lem [] s = (tt, refl)
  process_watch_events_lem (cancelled ∷ rest) s = (tt, refl)
  process_watch_events_lem (closed ∷ rest) s = (tt, refl)
  process_watch_events_lem (event type none ∷ rest) s = process_watch_events_lem rest s
  process_watch_events_lem (event type (some pod) ∷ rest) s =
      let s' = (watch_event client title convert type pod s).1 in
      let (sent, same) = process_watch_events_lem rest s' in
      (
        (refl, refl, extract_event_details-AreDetails pod, sent),
        same ∙ trace-watch_event type pod s,
      )
  process_watch_events_lem (cancelled_in_send type pod ∷ rest) s =
      (tt, trace-watch_event type pod s)

-- The pod has a container of the name.
abbrev pub HasContainer : {Q : Type 0} → String → List (Container Q) → Type 0
HasContainer name [] = ⊥
HasContainer name (container ∷ containers) = (container.name ≡ name) ⊎ HasContainer name containers

-- The name that is asked for, or of the first container if none is.
abbrev pub IsWanted : {Q : Type 0} → String → String → List (Container Q) → Type 0
IsWanted asked name [] = (asked ≢ "") × (asked ≡ name)
IsWanted asked name (container ∷ containers) =
    ((asked ≢ "") × (asked ≡ name)) ⊎ ((asked ≡ "") × (container.name ≡ name))

any-HasContainer :
    {Q : Type 0} (name : String) (containers : List (Container Q))
    → (any (λ container. container.name == name) containers ≡ true) ↔ HasContainer name containers
any-HasContainer name [] = ground arith
any-HasContainer name (container ∷ containers) =
    ground (arith, any-HasContainer name containers, eq_iff container.name name)

-- Logs are streamed from a container exactly if the pod has it and it is the one asked for, or the
-- pod's first if none is asked for.
pub choose_container_iff :
    {Q : Type 0} (asked name : String) (containers : List (Container Q))
    → (choose_container asked containers ≡ ok name)
      ↔ (HasContainer name containers × IsWanted asked name containers)
unfolding choose_container default_container
choose_container_iff asked name [] = ground (arith, eq_iff asked "")
choose_container_iff asked name (container ∷ containers) =
    ground (arith, eq_iff asked "", any-HasContainer name (container ∷ containers))
