-- ===== src/Middleware/RequestId/Laws.antt =====
-- The bytes of an identifier.
use k8s_pod_manager_graphql.Prelude.{
  ℕ, zero, suc, ◌/◌, ◌≡◌, ◌≢◌, refl, ap, ◌∙◌, ◌⊎◌, inl, inr, some, List, [], ◌∷◌, get_elem?, arith,
}
use mathlib.Core.Option as Option
use k8s_pod_manager_graphql.Middleware.RequestId.{
  update, slice, version_byte, variant_byte, stamped, show_hex, generate,
}

get_elem?-update :
    (f : ℕ → ℕ) (i : ℕ) (bytes : List ℕ)
    → get_elem? (update f i bytes) i ≡ Option.map f (get_elem? bytes i)
unfolding update
get_elem?-update f i [] = refl
get_elem?-update f zero (b ∷ bs) = refl
get_elem?-update f (suc i) (b ∷ bs) = get_elem?-update f i bs

update_elsewhere :
    (f : ℕ → ℕ) (i j : ℕ) (bytes : List ℕ)
    → i ≢ j
    → get_elem? (update f i bytes) j ≡ get_elem? bytes j
unfolding update
update_elsewhere f i j [] h = refl
update_elsewhere f zero zero (b ∷ bs) h = absurd (h refl)
update_elsewhere f zero (suc j) (b ∷ bs) h = refl
update_elsewhere f (suc i) zero (b ∷ bs) h = refl
update_elsewhere f (suc i) (suc j) (b ∷ bs) h = update_elsewhere f i j bs (λ e. h (ap suc e))

-- The version is 4 and the variant is that of RFC 4122.
version_byte_lem : (b : ℕ) → version_byte b / 16 ≡ 4
unfolding version_byte
version_byte_lem b = omega arith

variant_byte_lem : (b : ℕ) → variant_byte b / 64 ≡ 2
unfolding variant_byte
variant_byte_lem b = omega arith

same_or_not : (i j : ℕ) → (j ≡ i) ⊎ (i ≢ j)
same_or_not zero zero = inl refl
same_or_not zero (suc j) = inr (λ e. absurd (omega arith))
same_or_not (suc i) zero = inr (λ e. absurd (omega arith))
same_or_not (suc i) (suc j) = elim (same_or_not i j) [
  | inl e ↦ inl (ap suc e)
  | inr n ↦ inr (λ e. n (omega arith))
]

elsewhere :
    (bytes : List ℕ) (j : ℕ)
    → (j ≡ 6) ⊎ ((j ≡ 8) ⊎ (get_elem? (stamped bytes) j ≡ get_elem? bytes j))
unfolding stamped
elsewhere bytes j = elim (same_or_not 6 j) [
  | inl e ↦ inl e
  | inr n ↦ elim (same_or_not 8 j) [
    | inl e ↦ inr (inl e)
    | inr m ↦
        inr
          (inr (update_elsewhere variant_byte 8 j _ m ∙ update_elsewhere version_byte 6 j bytes n))
  ]
]

-- An identifier keeps every random byte but two: the seventh gets the version, the ninth the variant.
pub stamped_lem :
    (bytes : List ℕ) (j : ℕ)
    → (get_elem? (stamped bytes) 6 ≡ Option.map version_byte (get_elem? bytes 6))
      × (get_elem? (stamped bytes) 8 ≡ Option.map variant_byte (get_elem? bytes 8))
      × ((j ≡ 6) ⊎ ((j ≡ 8) ⊎ (get_elem? (stamped bytes) j ≡ get_elem? bytes j)))
unfolding stamped
stamped_lem bytes j = (
  update_elsewhere variant_byte 8 6 _ (λ e. absurd (omega arith))
      ∙ get_elem?-update version_byte 6 bytes,
  get_elem?-update variant_byte 8 _
      ∙ ap (Option.map variant_byte)
          (update_elsewhere version_byte 6 8 bytes (λ e. absurd (omega arith))),
  elsewhere bytes j,
)

zeros :
    generate 7 (some (0 ∷ 0 ∷ 0 ∷ 0 ∷ 0 ∷ 0 ∷ 0 ∷ 0 ∷ 0 ∷ 0 ∷ 0 ∷ 0 ∷ 0 ∷ 0 ∷ 0 ∷ 255 ∷ []))
    ≡ "00000000-0000-4000-8000-0000000000ff"
unfolding generate stamped update slice show_hex version_byte variant_byte
zeros = refl
