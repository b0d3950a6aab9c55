-- ===== src/Graph/Health/Laws.antt =====
-- How old a cached response can be.
use k8s_pod_manager_graphql.Prelude.{
  ℕ, ◌+◌, ◌≤◌, ◌≡◌, refl, ◌⊎◌, inl, inr, Option, none, some, List, [], ◌∷◌, arith, All, Bool-cases,
}
use k8s_pod_manager_graphql.Graph.Health.{Cache, new_cache, is_stale, get}

-- A request: the reading of the clock by the cache, and what the wrapped service meets if it is called then
abbrev pub Request : Type 0 → Type 0
Request T = ℕ × T

-- The request is one of the list.
abbrev pub IsOneOf : {T : Type 0} → Request T → List (Request T) → Type 0
IsOneOf q [] = ⊥
IsOneOf q (r ∷ rs) = (q ≡ r) ⊎ IsOneOf q rs

All-weaker :
    {T : Type 0} {P Q : Request T → Type 0} (qs : List (Request T))
    → ((q : Request T) → P q → Q q)
    → All P qs
    → All Q qs
All-weaker [] h a = tt
All-weaker (q ∷ qs) h a = (h q a.0, All-weaker qs h a.1)

pub All-IsOneOf : {T : Type 0} (qs : List (Request T)) → All (λ q. IsOneOf q qs) qs
All-IsOneOf [] = tt
All-IsOneOf (q ∷ qs) = (inl refl, All-weaker qs (λ r m. inr m) (All-IsOneOf qs))

module _ {A T : Type 0} (wrapped : T → A) (ttl : ℕ) where
  -- The responses to requests, one after the other, each with the reading of the clock
  abbrev pub responses : List (Request T) → Cache A → List (ℕ × A)
  responses [] c = []
  responses ((now, moment) ∷ qs) c =
      let (a, c') = get ttl now (wrapped moment) c in (now, a) ∷ responses qs c'

  -- Each clock reading is at or after the one before it, the first at or after `before`.
  abbrev pub InOrder : ℕ → List (Request T) → Type 0
  InOrder before [] = Unit
  InOrder before (q ∷ qs) = (before ≤ q.0) × InOrder q.0 qs

  module _ (P : Request T → Type 0) where
    -- The response is the one to a request with `P` that came at most `ttl` before `now`.
    abbrev pub IsFresh : ℕ → A → Type 0
    IsFresh now a = (q : Request T) × P q × (a ≡ wrapped q.1) × (q.0 ≤ now) × (now ≤ q.0 + ttl)

    -- The cache holds the response to a request with `P` at its time, which is not after `now`.
    abbrev pub IsCached : ℕ → Option A → ℕ → Type 0
    IsCached now none time = Unit
    IsCached now (some a) time =
        (moment : T) × P (time, moment) × (a ≡ wrapped moment) × (time ≤ now)

    get-IsCached :
        (before now : ℕ) (moment : T) (last : Option A) (time : ℕ)
        → before ≤ now
        → P (now, moment)
        → IsCached before last time
        → IsFresh now (get ttl now (wrapped moment) (record { last = last; last_time = time })).0
          × IsCached now
              (get ttl now (wrapped moment) (record { last = last; last_time = time })).1.last
              (get ttl now (wrapped moment) (record { last = last; last_time = time })).1.last_time
    unfolding get is_stale
    get-IsCached before now moment none time h p c =
        (((now, moment), p, refl, omega arith, omega arith), (moment, p, refl, omega arith))
    get-IsCached before now moment (some a) time h p (m, pm, same, past) =
        elim (Bool-cases (is_stale ttl now (record { last = some a; last_time = time }))) [
          | inl s ↦
              rw s
                (((now, moment), p, refl, omega arith, omega arith), (moment, p, refl, omega arith))
          | inr s ↦
              rw s (((time, m), pm, same, omega arith, ground arith), (m, pm, same, omega arith))
        ]

    responses_of_cached :
        (qs : List (Request T)) (before : ℕ) (c : Cache A)
        → InOrder before qs
        → All P qs
        → IsCached before c.last c.last_time
        → All (λ r. IsFresh r.0 r.1) (responses qs c)
    responses_of_cached [] before c h ps k = tt
    responses_of_cached ((now, moment) ∷ qs) before c h ps k =
        let (fresh, cached) = get-IsCached before now moment c.last c.last_time h.0 ps.0 k in
        (fresh, responses_of_cached qs now (get ttl now (wrapped moment) c).1 h.1 ps.1 cached)

    -- Whatever the requests, in the order of their clock readings, every response is the one to a request with
    -- `P` at most `ttl` earlier.
    pub responses-IsFresh :
        (qs : List (Request T))
        → InOrder 0 qs
        → All P qs
        → All (λ r. IsFresh r.0 r.1) (responses qs new_cache)
    unfolding new_cache
    responses-IsFresh qs h ps = responses_of_cached qs 0 new_cache h ps tt
