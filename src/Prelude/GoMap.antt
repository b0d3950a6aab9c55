-- ===== src/Prelude/GoMap.antt =====
-- Go's `map[string]V`: an association list with at most one entry for each key. The order of the
-- entries is the order in which a `range` loop meets them, which Go leaves open.
use Prim.Native.String.{String}
use mathlib.Core.Path.{◌≡◌, refl}
use mathlib.Core.Logic.{◌≢◌}
use mathlib.Core.Option.{Option, none, some}
use mathlib.Core.List.{List, [], ◌∷◌}
use native.Mathlib.Omega.{arith}
use text.Mathlib.Text.{◌==◌}
use text.Mathlib.TextEquality.{eq_iff}
use k8s_pod_manager_graphql.Prelude.Tests.{if◌then◌else◌}
use k8s_pod_manager_graphql.Prelude.Lists.{All}

abbrev pub GoMap {ℓ} : Type ℓ → Type ℓ
GoMap V = List (String × V)

module _ {ℓ} {V : Type ℓ} where
  -- entries[key], with `none` for a missing key
  unfoldable pub lookup : String → GoMap V → Option V
  lookup key [] = none
  lookup key ((other, value) ∷ entries) = if other == key then some value else lookup key entries

  -- entries[key] = value
  unfoldable pub insert : String → V → GoMap V → GoMap V
  insert key value [] = (key, value) ∷ []
  insert key value ((other, old) ∷ entries) =
      if other == key then (key, value) ∷ entries else (other, old) ∷ insert key value entries

  -- delete(entries, key)
  unfoldable pub delete : String → GoMap V → GoMap V
  delete key [] = []
  delete key ((other, old) ∷ entries) =
      let rest = delete key entries in if other == key then rest else (other, old) ∷ rest

  -- No entry of `entries` has the key `key`.
  abbrev pub IsAbsent : String → GoMap V → Type 0
  IsAbsent key entries = All (λ e. e.0 ≢ key) entries

  abbrev pub HasDistinctKeys : GoMap V → Type 0
  HasDistinctKeys [] = Unit
  HasDistinctKeys ((key, value) ∷ entries) = IsAbsent key entries × HasDistinctKeys entries

  pub lookup-insert :
      (key other : String) (value : V) (entries : GoMap V)
      → lookup other (insert key value entries)
        ≡ (if key == other then some value else lookup other entries)
  unfolding lookup insert
  lookup-insert key other value [] = refl
  lookup-insert key other value ((first, old) ∷ entries) = ground (
    arith,
    eq_iff key other,
    eq_iff first key,
    eq_iff first other,
    lookup-insert key other value entries,
  )

  pub lookup-delete :
      (key other : String) (entries : GoMap V)
      → lookup other (delete key entries) ≡ (if key == other then none else lookup other entries)
  unfolding lookup delete
  lookup-delete key other [] = ground arith
  lookup-delete key other ((first, old) ∷ entries) = ground (
    arith,
    eq_iff key other,
    eq_iff first key,
    eq_iff first other,
    lookup-delete key other entries,
  )

  pub lookup_of_IsAbsent :
      (key : String) (entries : GoMap V) → IsAbsent key entries → lookup key entries ≡ none
  unfolding lookup
  lookup_of_IsAbsent key [] h = refl
  lookup_of_IsAbsent key ((other, value) ∷ entries) h =
      ground (arith, eq_iff other key, lookup_of_IsAbsent key entries h.1)

  IsAbsent-insert :
      (key other : String) (value : V) (entries : GoMap V)
      → key ≢ other
      → IsAbsent other entries
      → IsAbsent other (insert key value entries)
  unfolding insert
  IsAbsent-insert key other value [] h a = (h, tt)
  IsAbsent-insert key other value ((first, old) ∷ entries) h a =
      ground (arith, IsAbsent-insert key other value entries h a.1)

  IsAbsent-delete :
      (key other : String) (entries : GoMap V)
      → IsAbsent other entries
      → IsAbsent other (delete key entries)
  unfolding delete
  IsAbsent-delete key other [] a = tt
  IsAbsent-delete key other ((first, old) ∷ entries) a =
      ground (arith, IsAbsent-delete key other entries a.1)

  pub HasDistinctKeys-insert :
      (key : String) (value : V) (entries : GoMap V)
      → HasDistinctKeys entries
      → HasDistinctKeys (insert key value entries)
  unfolding insert
  HasDistinctKeys-insert key value [] h = (tt, tt)
  HasDistinctKeys-insert key value ((first, old) ∷ entries) h = ground (
    arith,
    eq_iff first key,
    IsAbsent-insert key first value entries,
    HasDistinctKeys-insert key value entries h.1,
  )

  pub HasDistinctKeys-delete :
      (key : String) (entries : GoMap V)
      → HasDistinctKeys entries
      → HasDistinctKeys (delete key entries)
  unfolding delete
  HasDistinctKeys-delete key [] h = tt
  HasDistinctKeys-delete key ((first, old) ∷ entries) h =
      ground (arith, IsAbsent-delete key first entries h.0, HasDistinctKeys-delete key entries h.1)
