-- ===== src/Middleware/RateLimiter/View.antt =====
-- What the limiter keeps for a key, and what each operation does to it: a fixed-window counter.
use k8s_pod_manager_graphql.Prelude.{
  ℕ, suc, ◌+◌, ◌≡◌, refl, ◌≢◌, ◌∙◌, String, Bool, false, Option, none, some, [], ◌∷◌, arith, ltb,
  if◌then◌else◌, eq_iff, eq_refl, Option-cases, ◌==◌, inl, inr, Bool-cases,
}
use k8s_pod_manager_graphql.Prelude.GoMap.{
  GoMap, lookup, insert, delete, HasDistinctKeys, lookup-insert, lookup-delete, lookup_of_IsAbsent,
}
use k8s_pod_manager_graphql.Middleware.RateLimiter.{
  InMemoryRateLimiter, allow, reset, cleanup, cleanup_loop, open_window, increment, at_key,
  needs_reset, result_of,
}

pub record Window : Type 0 where
  pub count : ℕ
  pub until : ℕ

abbrev pub window_of : Option ℕ → ℕ → Option Window
window_of none n = none
window_of (some t) n = some (record { count = n; until = t })

-- The window of a key: its count and its end.
unfoldable pub view : InMemoryRateLimiter → String → Option Window
view r key = window_of (lookup key r.reset_time) (at_key key r.requests)

-- One request at `now` against the window of its key.
abbrev pub hit : ℕ → ℕ → Option Window → Window
hit length now none = record { count = 1; until = now + length }
hit length now (some w) =
    if ltb w.until now
    then record { count = 1; until = now + length }
    else record { count = suc w.count; until = w.until }

-- A window that has ended by `now` is gone.
abbrev pub drop_ended : ℕ → Option Window → Option Window
drop_ended now none = none
drop_ended now (some w) = if ltb w.until now then none else some w

at_key-insert :
    (k j : String) (n : ℕ) (m : GoMap ℕ)
    → at_key j (insert k n m) ≡ (if k == j then n else at_key j m)
unfolding at_key
at_key-insert k j n m =
    rw (lookup-insert, at_key) (elim (Bool-cases (k == j)) [ inl e ↦ rw e | inr e ↦ rw e ])

at_key-delete :
    (k j : String) (m : GoMap ℕ) → at_key j (delete k m) ≡ (if k == j then 0 else at_key j m)
unfolding at_key
at_key-delete k j m =
    rw (lookup-delete, at_key) (elim (Bool-cases (k == j)) [ inl e ↦ rw e | inr e ↦ rw e ])

at_key_of_some : (k : String) (n : ℕ) (m : GoMap ℕ) → lookup k m ≡ some n → at_key k m ≡ n
unfolding at_key
at_key_of_some k n m e = rw (e, at_key)

ruleset map_laws = (lookup-insert, lookup-delete, at_key-insert, at_key-delete, eq_refl)

module _ (now until_now : ℕ) (key : String) (r : InMemoryRateLimiter) where
  pub view-allow_self :
      view (allow now until_now key r).1 key ≡ some (hit r.window now (view r key))
  unfolding view allow increment open_window needs_reset
  view-allow_self = elim (Option-cases (lookup key r.reset_time)) [
    | inl e ↦ rw e (simp map_laws)
    | inr (t, e) ↦ elim (Bool-cases (ltb t now)) [
      | inl old ↦ rw (e, old) (simp map_laws)
      | inr new ↦ rw (e, new) (simp (map_laws, e))
    ]
  ]

  pub view-allow_ne : (j : String) → key ≢ j → view (allow now until_now key r).1 j ≡ view r j
  unfolding view allow increment open_window
  view-allow_ne j h = elim (Bool-cases (needs_reset now (lookup key r.reset_time))) [
    | inl e ↦ rw e (simp map_laws (ground (arith, eq_iff key j)))
    | inr e ↦ rw e (simp map_laws (ground (arith, eq_iff key j)))
  ]

  pub result-allow :
      (allow now until_now key r).0
      ≡ (let w = hit r.window now (view r key) in result_of r.limit until_now w.count w.until)
  unfolding view allow increment open_window needs_reset
  result-allow = elim (Option-cases (lookup key r.reset_time)) [
    | inl e ↦ rw e (simp map_laws)
    | inr (t, e) ↦ elim (Bool-cases (ltb t now)) [
      | inl old ↦ rw (e, old) (simp map_laws)
      | inr new ↦ rw (e, new) (simp (map_laws, at_key_of_some key t r.reset_time e))
    ]
  ]

module _ (key j : String) (r : InMemoryRateLimiter) where
  pub view-reset : view (reset key r) j ≡ (if key == j then none else view r j)
  unfolding view reset
  view-reset = simp map_laws (elim (Bool-cases (key == j)) [ inl e ↦ rw e | inr e ↦ rw e ])

-- The loop drops the windows of the entries that it is given and that have ended.
abbrev ended : ℕ → Option ℕ → Bool
ended now none = false
ended now (some t) = ltb t now

view-cleanup_loop :
    (now : ℕ) (es : GoMap ℕ) (r : InMemoryRateLimiter) (j : String)
    → HasDistinctKeys es
    → view (cleanup_loop now es r) j ≡ (if ended now (lookup j es) then none else view r j)
unfolding cleanup_loop lookup
view-cleanup_loop now [] r j h = refl
view-cleanup_loop now ((k, t) ∷ es) r j h = ground (
  arith,
  eq_iff k j,
  view-reset k j r,
  lookup_of_IsAbsent k es h.0,
  view-cleanup_loop now es r j h.1,
  view-cleanup_loop now es (reset k r) j h.1,
)

-- The clean-up drops exactly the windows that have ended.
pub view-cleanup :
    (now : ℕ) (r : InMemoryRateLimiter) (j : String)
    → HasDistinctKeys r.reset_time
    → view (cleanup now r) j ≡ drop_ended now (view r j)
unfolding cleanup view
view-cleanup now r j h =
    view-cleanup_loop now r.reset_time r j h
    ∙ elim (Option-cases (lookup j r.reset_time)) [ inl e ↦ rw e | inr (t, e) ↦ rw e ]
