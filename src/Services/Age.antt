-- ===== src/Services/Age.antt =====
-- internal/services/pod_converter.go and namespace_service_impl.go: the two functions formatDuration.
pub mod Laws
pub mod Tests
use k8s_pod_manager_graphql.Prelude.{
  ℕ, ◌%◌, String, Bool, ◌&&◌, ◌||◌, List, [], ◌∷◌, ◌++◌, length, ltb, eqb, if◌then◌else◌,
}
use k8s_pod_manager_graphql.Prelude.Text.{◌<>◌, join, show_nat}

-- What the methods of a time.Duration say of it, and the conversions to int: whether it is below 0,
-- int(d.Hours() / 24), int(d.Hours()), int(d.Minutes()) and int(d.Seconds()). The four numbers mean
-- nothing for a duration below 0.
pub record Duration : Type 0 where
  pub is_negative : Bool
  pub total_days : ℕ
  pub total_hours : ℕ
  pub total_minutes : ℕ
  pub total_seconds : ℕ

-- A part of the text, if it is not 0
unfoldable pub part : ℕ → (unit : String) → List String
part n unit = if ltb 0 n then (show_nat n <> unit) ∷ [] else []

-- parts[:2] of at least two parts, else all of them
unfoldable pub first_two : List String → List String
first_two [] = []
first_two (a ∷ []) = a ∷ []
first_two (a ∷ b ∷ rest) = a ∷ b ∷ []

-- formatDuration of the pod converter
unfoldable pub format_duration : Duration → String
format_duration d =
    if d.is_negative
    then "Unknown"
    else (let days = d.total_days in
        let hours = d.total_hours % 24 in
        let parts = part days "d" ++ part hours "h" ++ part (d.total_minutes % 60) "m" in
        join "" (
          first_two (
            if eqb (length parts) 0 || (eqb (length parts) 1 && (eqb days 0 && eqb hours 0))
            then parts ++ ((show_nat (d.total_seconds % 60) <> "s") ∷ [])
            else parts)))

-- formatDuration of the namespace service
unfoldable pub format_namespace_duration : Duration → String
format_namespace_duration d =
    let days = d.total_days in
    let hours = d.total_hours % 24 in
    let minutes = d.total_minutes % 60 in
    if d.is_negative
    then "Unknown"
    else if ltb 0 days
    then (if ltb 0 hours
        then show_nat days <> "d" <> show_nat hours <> "h"
        else show_nat days <> "d")
    else if ltb 0 hours
    then (if ltb 0 minutes
        then show_nat hours <> "h" <> show_nat minutes <> "m"
        else show_nat hours <> "h")
    else if ltb 0 minutes
    then show_nat minutes <> "m"
    else show_nat d.total_seconds <> "s"
