-- ===== src/Prelude/Text.antt =====
-- Texts: `strings.Join`, and the decimal form that `fmt` gives an integer under `%d`.
use Prim.Native.Nat.{ℕ, zero, suc, ◌/◌, ◌%◌}
use Prim.Native.String
use Prim.Native.String.{String}
use mathlib.Core.Path.{◌≡◌, refl}
use mathlib.Core.List.{List, [], ◌∷◌}
use mathlib.Core.Option.{none, some}
use k8s_pod_manager_graphql.Prelude.Tests.{ltb, if◌then◌else◌}
use k8s_pod_manager_graphql.Prelude.Lists.{get_elem?}
use k8s_pod_manager_graphql.Prelude.Int.{ℤ, pos, negsuc}

-- Concatenation of texts, apart from that of lists.
infixr 65 ◌<>◌
abbrev pub ◌<>◌ : String → String → String
s <> t = String.◌++◌ s t

-- strings.Join
unfoldable pub join : String → List String → String
join sep [] = ""
join sep (s ∷ []) = s
join sep (s ∷ t ∷ ts) = s <> sep <> join sep (t ∷ ts)

digit_texts : List String
digit_texts = "0" ∷ "1" ∷ "2" ∷ "3" ∷ "4" ∷ "5" ∷ "6" ∷ "7" ∷ "8" ∷ "9" ∷ []

show_digit : ℕ → String
unfolding digit_texts
show_digit d = elim (get_elem? digit_texts d) [ some s ↦ s | none ↦ "" ]

-- The decimal digits of `n`, the last one first; the fuel bounds their number.
show_from : ℕ → ℕ → String
show_from zero n = ""
show_from (suc f) n =
    let more = show_from f (n / 10) <> show_digit (n % 10) in
    if ltb n 10 then show_digit n else more

-- `%d` of an unsigned number; a number has no more digits than its value plus one.
unfoldable pub show_nat : ℕ → String
unfolding show_from show_digit
show_nat n = show_from (suc n) n

-- `%d` of an integer
unfoldable pub show_int : ℤ → String
unfolding show_nat
show_int (pos n) = show_nat n
show_int (negsuc n) = "-" <> show_nat (suc n)

show_int_test : show_int (negsuc 119) <> show_int (pos 30) ≡ "-12030"
unfolding show_int
show_int_test = refl
