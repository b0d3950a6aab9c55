-- ===== src/Graph/Subscriptions/Panics.antt =====
-- How a subscription ends: what can make it panic, and what never ends.
use k8s_pod_manager_graphql.Prelude.{
  ◌<◌, ◌≡◌, refl, sym, ap, ◌∙◌, subst, ◌⊎◌, inl, inr, String, true, false, List, [], ◌∷◌, ◌++◌,
  length, arith,
}
use k8s_pod_manager_graphql.Graph.Subscriptions.{
  capacity, Producer, active, ended, waiting, Subscription, System, live, panicked,
  new_subscription, Step, send, send_on_closed, end, take, drain, deliver, deliver_on_closed,
  give_up, cancel, receive, Reach, here, next,
}
use k8s_pod_manager_graphql.Graph.Subscriptions.Order.{
  is_finished, is_ended, IsSound, Reach-IsSound,
}

module _ {A B : Type 0} (convert : A → B) where
  cause_of_panic :
      {s : Subscription A B} {text : String}
      → Step convert s (panicked text)
      → IsSound convert s
      → (s.producer ≡ ended) ⊎ (s.cancelled ≡ true)
  cause_of_panic (send_on_closed on shut) h = inr (h.cause (sym h.service_closed ∙ shut))
  cause_of_panic (drain w e shut) h =
      absurd (ground (arith, sym (ap is_finished w) ∙ sym h.service_closed ∙ shut))
  cause_of_panic {s} (deliver_on_closed b w shut) h =
      inl (ended_of s.producer (sym h.events_closed ∙ shut))
    where
      ended_of : (p : Producer) → is_ended p ≡ true → p ≡ ended
      ended_of ended e = refl
      ended_of active e = cc

  -- A subscription panics only after the service has returned or the context was cancelled.
  pub panic_lem :
      (s : Subscription A B) (text : String)
      → Reach convert new_subscription (live s)
      → Step convert s (panicked text)
      → (s.producer ≡ ended) ⊎ (s.cancelled ≡ true)
  panic_lem s text r st = cause_of_panic st (Reach-IsSound convert r)

  -- A subscription at rest: both goroutines run, and no event is under way between them.
  pub record IsAtRest (s : Subscription A B) : Type 0 where
    pub runs : s.producer ≡ active
    pub waits : s.converter ≡ waiting
    pub empty : s.service.buffer ≡ []

  -- From every state at rest the server can panic, without any cancellation: the service sends an event and
  -- returns, and in that state, where the context is cancelled only if it was before, a goroutine sends on
  -- the closed channel.
  pub panic-Reach :
      (s : Subscription A B) (a : A)
      → Reach convert new_subscription (live s)
      → IsAtRest s
      → (t : Subscription A B) × Reach convert s (live t)
        × (t.cancelled ≡ s.cancelled)
        × (t.producer ≡ ended)
        × (t.sent ≡ s.sent ++ (a ∷ []))
        × Step convert t (panicked "send on closed channel")
  panic-Reach s a r h = (
    _,
    next
        (next
          (next here (
            send a h.runs ((Reach-IsSound convert r).service_closed ∙ ap is_finished h.waits)
              (subst (λ l. length l < capacity) (sym h.empty) (omega arith))))
          (take a [] h.waits (ap (λ l. l ++ (a ∷ [])) h.empty)))
        (end h.runs),
    refl,
    refl,
    refl,
    deliver_on_closed (convert a) refl refl,
  )

  -- The converter waits for events of a service that has returned, on a channel that only the
  -- converter would close.
  pub record IsLeaked (s : Subscription A B) : Type 0 where
    pub returned : s.producer ≡ ended
    pub waits : s.converter ≡ waiting
    pub empty : s.service.buffer ≡ []
    pub unclosed : s.service.is_closed ≡ false

  abbrev pub StaysLeaked : System A B → Type 0
  StaysLeaked (live s) = IsLeaked s
  StaysLeaked (panicked text) = ⊥

  same_buffer :
      (s : Subscription A B)
      → IsLeaked s
      → (a : A) (rest : List A) → ¬ (s.service.buffer ≡ a ∷ rest)
  same_buffer s h a rest e = let p = sym h.empty ∙ e in absurd cc

  Step-StaysLeaked :
      {s : Subscription A B} {u : System A B} → Step convert s u → IsLeaked s → StaysLeaked u
  Step-StaysLeaked (send a on unshut room) h = let p = sym on ∙ h.returned in absurd cc
  Step-StaysLeaked (send_on_closed on shut) h = let p = sym on ∙ h.returned in absurd cc
  Step-StaysLeaked (end on) h = let p = sym on ∙ h.returned in absurd cc
  Step-StaysLeaked {s} (take a rest w e) h = absurd (same_buffer s h a rest e)
  Step-StaysLeaked (drain w e shut) h = let p = sym h.unclosed ∙ shut in absurd cc
  Step-StaysLeaked (deliver b w unshut room) h = let p = sym h.waits ∙ w in absurd cc
  Step-StaysLeaked (deliver_on_closed b w shut) h = let p = sym h.waits ∙ w in absurd cc
  Step-StaysLeaked (give_up b w c) h = let p = sym h.waits ∙ w in absurd cc
  Step-StaysLeaked cancel h = record {
    returned = h.returned;
    waits = h.waits;
    empty = h.empty;
    unclosed = h.unclosed;
  }
  Step-StaysLeaked (receive b rest e) h = record {
    returned = h.returned;
    waits = h.waits;
    empty = h.empty;
    unclosed = h.unclosed;
  }

  Reach-StaysLeaked :
      {s : Subscription A B} {u : System A B} → IsLeaked s → Reach convert s u → StaysLeaked u
  Reach-StaysLeaked h here = h
  Reach-StaysLeaked h (next r st) = Step-StaysLeaked st (Reach-StaysLeaked h r)

  -- The state after the service of a subscription has returned
  abbrev pub after_end : Subscription A B → Subscription A B
  after_end s = record s {
    producer = ended;
    events = record { buffer = s.events.buffer; is_closed = true };
  }

  -- When the service of a subscription at rest returns, the converting goroutine waits for ever:
  -- whatever happens next, a cancellation included, it neither returns nor can take another event.
  pub Reach-IsLeaked :
      (s : Subscription A B)
      → Reach convert new_subscription (live s)
      → IsAtRest s
      → (u : System A B) → Reach convert (after_end s) u
      → StaysLeaked u
  Reach-IsLeaked s r h u later =
      Reach-StaysLeaked
        (record {
          returned = refl;
          waits = h.waits;
          empty = h.empty;
          unclosed = (Reach-IsSound convert r).service_closed ∙ ap is_finished h.waits;
        })
        later
