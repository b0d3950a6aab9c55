-- ===== src/Graph/Subscriptions/Tests.antt =====
-- A subscription of numbers: one event sent, converted and received.
use k8s_pod_manager_graphql.Prelude.{ℕ, ◌≡◌, ◌++◌, refl, true, false, [], ◌∷◌, arith, suc}
use k8s_pod_manager_graphql.Graph.Subscriptions.{
  Subscription, live, panicked, new_subscription, send, end, take, cancel, Step, Reach, here, next,
  ended, holding,
}
use k8s_pod_manager_graphql.Graph.Subscriptions.Order.{IsSound, Reach-IsSound}
use k8s_pod_manager_graphql.Graph.Subscriptions.Panics.{
  IsAtRest, StaysLeaked, after_end, panic-Reach, Reach-IsLeaked,
}

abbrev one_held : Subscription ℕ ℕ
one_held = record {
  service = record { buffer = []; is_closed = false };
  events = record { buffer = []; is_closed = true };
  producer = ended;
  converter = holding 8;
  cancelled = false;
  sent = 7 ∷ [];
  received = [];
}

one_held-Reach : Reach suc new_subscription (live one_held)
one_held-Reach =
    next (next (next here (send 7 refl refl (omega arith))) (take 7 [] refl refl)) (end refl)

Reach-IsSound_example : IsSound suc one_held
Reach-IsSound_example = Reach-IsSound suc one_held-Reach

abbrev fresh : Subscription ℕ ℕ
fresh = new_subscription

fresh-IsAtRest : IsAtRest suc fresh
fresh-IsAtRest = record { runs = refl; waits = refl; empty = refl }

panic-Reach_example :
    (t : Subscription ℕ ℕ) × Reach suc fresh (live t)
    × (t.cancelled ≡ fresh.cancelled)
    × (t.producer ≡ ended)
    × (t.sent ≡ fresh.sent ++ (7 ∷ []))
    × Step suc t (panicked "send on closed channel")
panic-Reach_example = panic-Reach suc fresh 7 here fresh-IsAtRest

abbrev cancelled_late : Subscription ℕ ℕ
cancelled_late = record (after_end suc fresh) { cancelled = true }

Reach-IsLeaked_example : StaysLeaked suc (live cancelled_late)
Reach-IsLeaked_example =
    Reach-IsLeaked suc fresh here fresh-IsAtRest (live cancelled_late) (next here cancel)
