-- ===== src/Services/Age/Laws.antt =====
-- The two formats of an age, compared.
use Prim.Native.String.append
use text.Mathlib.TextLemmas.{append-nil, append_assoc}
use k8s_pod_manager_graphql.Prelude.{
  ℕ, ◌/◌, ◌%◌, String, ◌≡◌, refl, sym, ap, ◌∙◌, Bool, true, false, not, List, ◌&&◌, ◌||◌, ◌++◌, [],
  ◌∷◌, length, ltb, eqb, if◌then◌else◌, arith,
}
use k8s_pod_manager_graphql.Prelude.Text.{◌<>◌, join, show_nat}
use k8s_pod_manager_graphql.Services.Age.{
  Duration, part, first_two, format_duration, format_namespace_duration,
}

-- The numbers of a duration belong together: each is the one of the next finer unit, rounded down.
pub record IsExact (d : Duration) : Type 0 where
  pub days_exact : d.total_days ≡ d.total_hours / 24
  pub hours_exact : d.total_hours ≡ d.total_minutes / 60
  pub minutes_exact : d.total_minutes ≡ d.total_seconds / 60

-- What a pod's age shows behind the age of a namespace
abbrev pub finer : Duration → String
finer d =
    if ltb 0 (d.total_minutes % 60) && not (ltb 0 (d.total_hours % 24))
    then (if ltb 0 d.total_days
        then show_nat (d.total_minutes % 60) <> "m"
        else show_nat (d.total_seconds % 60) <> "s")
    else ""

abbrev part_if : Bool → String → List String
part_if b text = if b then text ∷ [] else []

-- The comparison over the parts of the texts, by which of days, hours and minutes are shown
texts_agree :
    (p q r : Bool) (days hours minutes seconds total : String)
    → (p ≡ false → q ≡ false → r ≡ false → seconds ≡ total)
    → join "" (
        first_two (
          if eqb (length (part_if p days ++ part_if q hours ++ part_if r minutes)) 0
            || (eqb (length (part_if p days ++ part_if q hours ++ part_if r minutes)) 1
                && (not p && not q))
          then (part_if p days ++ part_if q hours ++ part_if r minutes) ++ (seconds ∷ [])
          else part_if p days ++ part_if q hours ++ part_if r minutes))
      ≡ (if p
          then (if q then days <> hours else days)
          else if q
          then (if r then hours <> minutes else hours)
          else if r
          then minutes
          else total)
        <> (if r && not q then (if p then minutes else seconds) else "")
unfolding first_two join
texts_agree false false false D H M S T h = h refl refl refl ∙ sym (append-nil T)
texts_agree false false true D H M S T h = ap (λ t. M <> t) (append.nil S)
texts_agree false true false D H M S T h = sym (append-nil H)
texts_agree false true true D H M S T h =
    ap (λ t. H <> t) (append.nil M) ∙ sym (append-nil (H <> M))
texts_agree true false false D H M S T h = sym (append-nil D)
texts_agree true false true D H M S T h = ap (λ t. D <> t) (append.nil M)
texts_agree true true false D H M S T h =
    ap (λ t. D <> t) (append.nil H) ∙ sym (append-nil (D <> H))
texts_agree true true true D H M S T h = ap (λ t. D <> t) (append.nil H) ∙ sym (append-nil (D <> H))

is_zero-not : (n : ℕ) → eqb n 0 ≡ not (ltb 0 n)
is_zero-not n = ground arith

seconds_only :
    (d : Duration)
    → IsExact d
    → ltb 0 d.total_days ≡ false
    → ltb 0 (d.total_hours % 24) ≡ false
    → ltb 0 (d.total_minutes % 60) ≡ false
    → d.total_seconds % 60 ≡ d.total_seconds
seconds_only d h p q r = ground (arith, h.days_exact, h.hours_exact, h.minutes_exact)

-- The two services show the same age, but for what `finer` adds in a pod's: the minutes where there are
-- days and no hours, and the seconds where there are minutes only.
pub format_duration-finer :
    (d : Duration)
    → IsExact d
    → d.is_negative ≡ false
    → format_duration d ≡ format_namespace_duration d <> finer d
unfolding format_duration format_namespace_duration part
format_duration-finer d h e =
    rw
      (
        e,
        is_zero-not d.total_days,
        is_zero-not (d.total_hours % 24),
        ← append_assoc (show_nat d.total_days) "d" (show_nat (d.total_hours % 24) <> "h"),
        ← append_assoc (show_nat (d.total_hours % 24)) "h" (show_nat (d.total_minutes % 60) <> "m"),
      )
      (texts_agree (ltb 0 d.total_days) (ltb 0 (d.total_hours % 24)) (ltb 0 (d.total_minutes % 60))
        _ _ _ _ _ (λ p q r. ap (λ s. show_nat s <> "s") (seconds_only d h p q r)))
