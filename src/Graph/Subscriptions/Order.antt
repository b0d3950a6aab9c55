-- ===== src/Graph/Subscriptions/Order.antt =====
-- What holds in every state of a subscription: the order of the events, and who closed what.
use mathlib.Core.List.{append_assoc, map-append}
use k8s_pod_manager_graphql.Prelude.{
  ◌≤◌, ◌≡◌, refl, sym, ap, ◌∙◌, subst, Bool, true, false, List, [], ◌∷◌, ◌++◌, map, length,
  length-append, arith,
}
use k8s_pod_manager_graphql.Graph.Subscriptions.{
  capacity, Producer, active, ended, Converter, waiting, holding, finished, Subscription, System,
  live, panicked, new_subscription, Step, send, send_on_closed, end, take, drain, deliver,
  deliver_on_closed, give_up, cancel, receive, Reach, here, next,
}

abbrev pub is_finished : {B : Type 0} → Converter B → Bool
is_finished finished = true
is_finished waiting = false
is_finished (holding b) = false

abbrev pub is_ended : Producer → Bool
is_ended ended = true
is_ended active = false

module _ {A B : Type 0} (convert : A → B) where
  -- What the client received, then what waits in its channel, what the converter holds and what waits
  -- for it, is what the service sent. A converter that gave up loses what it held and what waited.
  abbrev pub IsOrdered : (received events : List B) → Converter B → (service sent : List A) → Type 0
  IsOrdered received events waiting service sent =
      received ++ (events ++ map convert service) ≡ map convert sent
  IsOrdered received events (holding b) service sent =
      received ++ (events ++ (b ∷ map convert service)) ≡ map convert sent
  IsOrdered received events finished service sent =
      (lost : List B) × (received ++ (events ++ lost) ≡ map convert sent)

  sent_one :
      (received events pending : List B) (sent : List A) (a : A)
      → received ++ (events ++ pending) ≡ map convert sent
      → received ++ (events ++ (pending ++ (convert a ∷ []))) ≡ map convert (sent ++ (a ∷ []))
  sent_one received events pending sent a h =
      ap (λ l. received ++ l) (sym (append_assoc events pending (convert a ∷ [])))
      ∙ sym (append_assoc received (events ++ pending) (convert a ∷ []))
      ∙ ap (λ l. l ++ (convert a ∷ [])) h
      ∙ sym (map-append convert sent (a ∷ []))

  send-IsOrdered :
      (received events : List B) (c : Converter B) (service sent : List A) (a : A)
      → IsOrdered received events c service sent
      → IsOrdered received events c (service ++ (a ∷ [])) (sent ++ (a ∷ []))
  send-IsOrdered received events waiting service sent a h =
      rw (map-append convert service (a ∷ [])) (sent_one received events _ sent a h)
  send-IsOrdered received events (holding b) service sent a h =
      rw (map-append convert service (a ∷ [])) (sent_one received events _ sent a h)
  send-IsOrdered received events finished service sent a (lost, h) =
      (lost ++ (convert a ∷ []), sent_one received events lost sent a h)

  received_one :
      (received events pending : List B) (b : B)
      → (received ++ (b ∷ [])) ++ (events ++ pending) ≡ received ++ ((b ∷ events) ++ pending)
  received_one received events pending b = append_assoc received (b ∷ []) (events ++ pending)

  receive-IsOrdered :
      (received events : List B) (c : Converter B) (service sent : List A) (b : B)
      → IsOrdered received (b ∷ events) c service sent
      → IsOrdered (received ++ (b ∷ [])) events c service sent
  receive-IsOrdered received events waiting service sent b h = received_one received events _ b ∙ h
  receive-IsOrdered received events (holding b') service sent b h =
      received_one received events _ b ∙ h
  receive-IsOrdered received events finished service sent b (lost, h) =
      (lost, received_one received events lost b ∙ h)

  deliver-IsOrdered :
      (received events : List B) (service sent : List A) (b : B)
      → IsOrdered received events (holding b) service sent
      → IsOrdered received (events ++ (b ∷ [])) waiting service sent
  deliver-IsOrdered received events service sent b h =
      ap (λ l. received ++ l) (append_assoc events (b ∷ []) (map convert service)) ∙ h

  pub record IsSound (s : Subscription A B) : Type 0 where
    pub order : IsOrdered s.received s.events.buffer s.converter s.service.buffer s.sent
    pub service_closed : s.service.is_closed ≡ is_finished s.converter
    pub events_closed : s.events.is_closed ≡ is_ended s.producer
    pub cause : is_finished s.converter ≡ true → s.cancelled ≡ true
    pub service_room : length s.service.buffer ≤ capacity
    pub events_room : length s.events.buffer ≤ capacity

  IsSound-new : IsSound new_subscription
  IsSound-new = record {
    order = refl;
    service_closed = refl;
    events_closed = refl;
    cause = λ h. cc;
    service_room = omega arith;
    events_room = omega arith;
  }

  -- A state after a step that is live is sound; nothing is said of a panic.
  abbrev pub IsSoundIfLive : System A B → Type 0
  IsSoundIfLive (live s) = IsSound s
  IsSoundIfLive (panicked text) = Unit

  Step-IsSound :
      {s : Subscription A B} {u : System A B} → Step convert s u → IsSound s → IsSoundIfLive u
  Step-IsSound {s} (send a on unshut room) h = record {
    order = send-IsOrdered s.received s.events.buffer s.converter s.service.buffer s.sent a h.order;
    service_closed = sym unshut ∙ h.service_closed;
    events_closed = h.events_closed;
    cause = h.cause;
    service_room = omega (arith, room, length-append s.service.buffer (a ∷ []));
    events_room = h.events_room;
  }
  Step-IsSound (send_on_closed on shut) h = tt
  Step-IsSound (end on) h = record {
    order = h.order;
    service_closed = h.service_closed;
    events_closed = refl;
    cause = h.cause;
    service_room = h.service_room;
    events_room = h.events_room;
  }
  Step-IsSound {s} (take a rest w e) h = record {
    order =
        subst (λ l. IsOrdered s.received s.events.buffer waiting l s.sent) e
          (subst (λ c. IsOrdered s.received s.events.buffer c s.service.buffer s.sent) w h.order);
    service_closed = h.service_closed ∙ ap is_finished w;
    events_closed = h.events_closed;
    cause = λ p. cc;
    service_room = ground (arith, subst (λ l. length l ≤ capacity) e h.service_room);
    events_room = h.events_room;
  }
  Step-IsSound (drain w e shut) h = tt
  Step-IsSound {s} (deliver b w unshut room) h = record {
    order =
        deliver-IsOrdered s.received s.events.buffer s.service.buffer s.sent b
          (subst (λ c. IsOrdered s.received s.events.buffer c s.service.buffer s.sent) w h.order);
    service_closed = h.service_closed ∙ ap is_finished w;
    events_closed = sym unshut ∙ h.events_closed;
    cause = λ p. cc;
    service_room = h.service_room;
    events_room = omega (arith, room, length-append s.events.buffer (b ∷ []));
  }
  Step-IsSound (deliver_on_closed b w shut) h = tt
  Step-IsSound {s} (give_up b w c) h = record {
    order = (
      b ∷ map convert s.service.buffer,
      subst (λ c. IsOrdered s.received s.events.buffer c s.service.buffer s.sent) w h.order,
    );
    service_closed = refl;
    events_closed = h.events_closed;
    cause = λ p. c;
    service_room = h.service_room;
    events_room = h.events_room;
  }
  Step-IsSound cancel h = record {
    order = h.order;
    service_closed = h.service_closed;
    events_closed = h.events_closed;
    cause = λ p. refl;
    service_room = h.service_room;
    events_room = h.events_room;
  }
  Step-IsSound {s} (receive b rest e) h = record {
    order =
        receive-IsOrdered s.received rest s.converter s.service.buffer s.sent b
          (subst (λ l. IsOrdered s.received l s.converter s.service.buffer s.sent) e h.order);
    service_closed = h.service_closed;
    events_closed = h.events_closed;
    cause = h.cause;
    service_room = h.service_room;
    events_room = ground (arith, subst (λ l. length l ≤ capacity) e h.events_room);
  }

  -- In every state that a new subscription reaches, no buffer holds more than 100 events, and the
  -- client has received the converted events of the service in their order, none twice: what it
  -- received, what is under way, and what a converter that gave up lost, is what was sent. The
  -- converter gives up only after a cancellation, and each channel is closed exactly when the goroutine
  -- that closes it has returned.
  pub Reach-IsSound : {u : System A B} → Reach convert new_subscription u → IsSoundIfLive u
  Reach-IsSound here = IsSound-new
  Reach-IsSound (next r st) = Step-IsSound st (Reach-IsSound r)
