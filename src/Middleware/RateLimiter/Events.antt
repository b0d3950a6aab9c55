-- ===== src/Middleware/RateLimiter/Events.antt =====
-- Requests, resets and clean-ups in any order: what a client of the limiter can rely on.
use k8s_pod_manager_graphql.Prelude.{
  ℕ, suc, ◌+◌, ◌-◌, ◌≤◌, ◌<◌, min, ◌≡◌, refl, ◌≢◌, ◌∙◌, ap, sym, subst, String, Bool, Option, none,
  some, List, [], ◌∷◌, arith, eq_iff, eq_refl, Bool-cases, ◌==◌, inl, inr, if◌then◌else◌, All,
}
use k8s_pod_manager_graphql.Prelude.Int.{ℤ, pos, pos_part, leb_ℤ}
use k8s_pod_manager_graphql.Middleware.RateLimiter.{
  InMemoryRateLimiter, allow, reset, cleanup, cleanup_loop, open_window, increment, result_of,
}
use k8s_pod_manager_graphql.Middleware.RateLimiter.View.{
  Window, view, hit, drop_ended, view-allow_self, view-allow_ne, result-allow, view-reset,
  view-cleanup,
}
use k8s_pod_manager_graphql.Middleware.RateLimiter.Invariant.{
  IsConsistent, allow-IsConsistent, reset-IsConsistent, cleanup-IsConsistent,
}

-- One step of the limiter: a request of a client, an administrative reset, a tick of the clean-up.
pub data Event : Type 0 where
  request : (now until_now : ℕ) → String → Event
  reset_of : String → Event
  tick : (now : ℕ) → Event

unfoldable pub step : Event → InMemoryRateLimiter → InMemoryRateLimiter
step (request now until_now key) r = (allow now until_now key r).1
step (reset_of key) r = reset key r
step (tick now) r = cleanup now r

unfoldable pub run : List Event → InMemoryRateLimiter → InMemoryRateLimiter
run [] r = r
run (e ∷ es) r = run es (step e r)

step-IsConsistent : (e : Event) (r : InMemoryRateLimiter) → IsConsistent r → IsConsistent (step e r)
unfolding step
step-IsConsistent (request now until_now key) r h = allow-IsConsistent now until_now key r h
step-IsConsistent (reset_of key) r h = reset-IsConsistent key r h
step-IsConsistent (tick now) r h = cleanup-IsConsistent now r h

-- The two maps stay consistent, whatever the limiter is asked to do and in whatever order.
pub run-IsConsistent :
    (es : List Event) (r : InMemoryRateLimiter) → IsConsistent r → IsConsistent (run es r)
unfolding run
run-IsConsistent [] r h = h
run-IsConsistent (e ∷ es) r h = run-IsConsistent es (step e r) (step-IsConsistent e r h)

-- The requests of `key` that the limiter lets through.
unfoldable pub allowed_for : String → List Event → InMemoryRateLimiter → ℕ
allowed_for key [] r = 0
allowed_for key (request now until_now k ∷ es) r =
    let rest = allowed_for key es (allow now until_now k r).1 in
    if k == key then (if (allow now until_now k r).0.allowed then suc rest else rest) else rest
allowed_for key (reset_of k ∷ es) r = allowed_for key es (reset k r)
allowed_for key (tick now ∷ es) r = allowed_for key es (cleanup now r)

-- The requests of `key`.
unfoldable pub requests_for : String → List Event → ℕ
requests_for key [] = 0
requests_for key (request now until_now k ∷ es) =
    let rest = requests_for key es in if k == key then suc rest else rest
requests_for key (_ ∷ es) = requests_for key es

-- The event happens by `until` and does not reset `key`.
abbrev pub Within : ℕ → String → Event → Type 0
Within until key (request now until_now k) = now ≤ until
Within until key (reset_of k) = k ≢ key
Within until key (tick now) = now ≤ until

-- The requests that a limit leaves after a count of requests.
abbrev pub room : ℤ → ℕ → ℕ
room limit count = pos_part limit - count

allowed-result_of :
    (limit : ℤ) (until_now count reset_at : ℕ)
    → (result_of limit until_now count reset_at).allowed ≡ leb_ℤ (pos count) limit
unfolding result_of
allowed-result_of limit until_now count reset_at = refl

limit-allow :
    (now until_now : ℕ) (key : String) (r : InMemoryRateLimiter)
    → (allow now until_now key r).1.limit ≡ r.limit
unfolding allow increment open_window
limit-allow now until_now key r = ground arith

limit-cleanup_loop :
    (now : ℕ) (es : List (String × ℕ)) (r : InMemoryRateLimiter)
    → (cleanup_loop now es r).limit ≡ r.limit
unfolding cleanup_loop reset
limit-cleanup_loop now [] r = refl
limit-cleanup_loop now ((k, t) ∷ es) r =
    ground (arith, limit-cleanup_loop now es (reset k r), limit-cleanup_loop now es r)

limit-cleanup : (now : ℕ) (r : InMemoryRateLimiter) → (cleanup now r).limit ≡ r.limit
unfolding cleanup
limit-cleanup now r = limit-cleanup_loop now r.reset_time r

limit-reset : (key : String) (r : InMemoryRateLimiter) → (reset key r).limit ≡ r.limit
unfolding reset
limit-reset key r = refl

-- The window after one more request
abbrev counted : Window → Window
counted w = record { count = suc w.count; until = w.until }

-- One request within an open window: what it answers, and the window that it leaves.
module _ (now until_now : ℕ) (key : String) (r : InMemoryRateLimiter) (w : Window)
    (open_at : view r key ≡ some w) (in_time : now ≤ w.until) where
  hit_open : hit r.window now (view r key) ≡ counted w
  hit_open = rw open_at (ground arith)

  view-counted : view (allow now until_now key r).1 key ≡ some (counted w)
  view-counted = view-allow_self now until_now key r ∙ ap some hit_open

  allowed_counted : (allow now until_now key r).0.allowed ≡ leb_ℤ (pos (suc w.count)) r.limit
  allowed_counted =
      rw (result-allow now until_now key r, hit_open)
        (allowed-result_of r.limit until_now (suc w.count) w.until)

take_one :
    (b : Bool) (n rest c : ℕ) (limit : ℤ)
    → b ≡ leb_ℤ (pos (suc c)) limit
    → rest ≡ min n (room limit (suc c))
    → (if b then suc rest else rest) ≡ min (suc n) (room limit c)
take_one b n rest c limit h k = ground arith

-- Any requests, resets of other keys and clean-ups within an open window let through as many
-- requests of the key as the limit leaves, neither more nor fewer.
pub allowed_in_window :
    (key : String) (es : List Event) (r : InMemoryRateLimiter) (w : Window) (limit : ℤ)
    → IsConsistent r
    → r.limit ≡ limit
    → view r key ≡ some w
    → All (Within w.until key) es
    → allowed_for key es r ≡ min (requests_for key es) (room limit w.count)
unfolding allowed_for requests_for
allowed_in_window key [] r w limit c l h a = omega arith
allowed_in_window key (request now until_now k ∷ es) r w limit c l h a =
    let r' = (allow now until_now k r).1 in
    let c' = allow-IsConsistent now until_now k r c in
    let l' = limit-allow now until_now k r ∙ l in
    elim (Bool-cases (k == key)) [
      | inl e ↦
          let same = (eq_iff k key).0 e in
          let h' = subst (λ j. view r j ≡ some w) (sym same) h in
          let moved =
            subst (λ j. view r' j ≡ some (counted w)) same
              (view-counted now until_now k r w h' a.0) in
          rw e (
            take_one _ _ _ w.count limit
              (allowed_counted now until_now k r w h' a.0 ∙ ap (leb_ℤ (pos (suc w.count))) l)
              (allowed_in_window key es r' (counted w) limit c' l' moved a.1))
      | inr e ↦ rw e (
          allowed_in_window key es r' w limit c' l'
            (view-allow_ne now until_now k r key (λ p. ground (arith, eq_iff k key, p)) ∙ h) a.1)
    ]
allowed_in_window key (reset_of k ∷ es) r w limit c l h a =
    allowed_in_window key es (reset k r) w limit (reset-IsConsistent k r c) (limit-reset k r ∙ l)
      (ground (arith, view-reset k key r, eq_iff k key)) a.1
allowed_in_window key (tick now ∷ es) r w limit c l h a =
    allowed_in_window key es (cleanup now r) w limit (cleanup-IsConsistent now r c)
      (limit-cleanup now r ∙ l) (ground (arith, view-cleanup now r key c.reset_distinct)) a.1

-- A window that has ended by `now`, or none at all.
abbrev pub IsOver : ℕ → Option Window → Type 0
IsOver now none = Unit
IsOver now (some w) = w.until < now

fresh_hit :
    (now length : ℕ) (o : Option Window)
    → IsOver now o
    → hit length now o ≡ record { count = 1; until = now + length }
fresh_hit now length none h = refl
fresh_hit now length (some w) h = ground arith

-- From a request at `now` that finds no open window for its key, until the end of the window that
-- it opens, exactly the first `limit` requests of the key get through, whatever requests of other
-- keys, resets of other keys and clean-ups stand between them. (A negative limit lets none through.)
pub allowed_for_lem :
    (key : String) (now until_now : ℕ) (es : List Event) (r : InMemoryRateLimiter)
    → IsConsistent r
    → IsOver now (view r key)
    → All (Within (now + r.window) key) es
    → allowed_for key (request now until_now key ∷ es) r
      ≡ min (suc (requests_for key es)) (pos_part r.limit)
unfolding allowed_for
allowed_for_lem key now until_now es r c over a =
    let fresh : hit r.window now (view r key) ≡ record { count = 1; until = now + r.window } =
      fresh_hit now r.window (view r key) over in
    let seen : view (allow now until_now key r).1 key
        ≡ some (record { count = 1; until = now + r.window }) =
      view-allow_self now until_now key r ∙ ap some fresh in
    rw (eq_refl key) (
      take_one (allow now until_now key r).0.allowed (requests_for key es) _ 0 r.limit
        (rw (result-allow now until_now key r, fresh)
          (allowed-result_of r.limit until_now 1 (now + r.window)))
        (allowed_in_window key es _ _ r.limit (allow-IsConsistent now until_now key r c)
          (limit-allow now until_now key r) seen a)
      ∙ ap (min (suc (requests_for key es))) (omega arith))

window-cleanup_loop :
    (now : ℕ) (es : List (String × ℕ)) (r : InMemoryRateLimiter)
    → (cleanup_loop now es r).window ≡ r.window
unfolding cleanup_loop reset
window-cleanup_loop now [] r = refl
window-cleanup_loop now ((k, t) ∷ es) r =
    ground (arith, window-cleanup_loop now es (reset k r), window-cleanup_loop now es r)

window-cleanup : (now : ℕ) (r : InMemoryRateLimiter) → (cleanup now r).window ≡ r.window
unfolding cleanup
window-cleanup now r = window-cleanup_loop now r.reset_time r

hit-drop_ended :
    (cleaned now length : ℕ) (o : Option Window)
    → cleaned ≤ now
    → hit length now (drop_ended cleaned o) ≡ hit length now o
hit-drop_ended cleaned now length none h = refl
hit-drop_ended cleaned now length (some w) h = ground arith

-- A clean-up is invisible to clients: a later request is answered as it would have been without it.
pub result-allow-cleanup :
    (cleaned now until_now : ℕ) (key : String) (r : InMemoryRateLimiter)
    → IsConsistent r
    → cleaned ≤ now
    → (allow now until_now key (cleanup cleaned r)).0 ≡ (allow now until_now key r).0
result-allow-cleanup cleaned now until_now key r c h =
    rw
      (
        result-allow now until_now key (cleanup cleaned r),
        result-allow now until_now key r,
        view-cleanup cleaned r key c.reset_distinct,
      )
      (ground (
        arith,
        limit-cleanup cleaned r,
        window-cleanup cleaned r,
        hit-drop_ended cleaned now r.window (view r key) h,
      ))
