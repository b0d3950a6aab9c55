-- ===== src/Middleware/RequestId.antt =====
-- internal/middleware/request_id.go: UUIDGenerator. The random bytes are an argument, none if rand.Read
-- fails; the clock is one, too.
pub mod Laws
use k8s_pod_manager_graphql.Prelude.{
  ℕ, zero, suc, ◌+◌, ◌/◌, ◌%◌, String, Option, none, some, List, [], ◌∷◌, get_elem?,
}
use k8s_pod_manager_graphql.Prelude.Text.{◌<>◌, show_nat}

-- An assignment to the element `i`
unfoldable pub update : (f : ℕ → ℕ) (i : ℕ) → List ℕ → List ℕ
update f i [] = []
update f zero (b ∷ bs) = f b ∷ bs
update f (suc i) (b ∷ bs) = b ∷ update f i bs

-- b[from:to]
unfoldable pub slice : (from to : ℕ) → List ℕ → List ℕ
slice from to [] = []
slice zero zero (b ∷ bs) = []
slice zero (suc to) (b ∷ bs) = b ∷ slice zero to bs
slice (suc from) zero (b ∷ bs) = []
slice (suc from) (suc to) (b ∷ bs) = slice from to bs

-- (b[6] & 0x0f) | 0x40
unfoldable pub version_byte : ℕ → ℕ
version_byte b = b % 16 + 64

-- (b[8] & 0x3f) | 0x80
unfoldable pub variant_byte : ℕ → ℕ
variant_byte b = b % 64 + 128

-- The two assignments
unfoldable pub stamped : List ℕ → List ℕ
stamped bytes = update variant_byte 8 (update version_byte 6 bytes)

hex_digits : List String
hex_digits =
    "0" ∷ "1" ∷ "2" ∷ "3" ∷ "4" ∷ "5" ∷ "6" ∷ "7" ∷ "8" ∷ "9" ∷ "a" ∷ "b" ∷ "c" ∷ "d" ∷ "e" ∷ "f"
    ∷ []

hex_digit : ℕ → String
unfolding hex_digits
hex_digit d = elim (get_elem? hex_digits d) [ some s ↦ s | none ↦ "" ]

-- `%x` of bytes
unfoldable pub show_hex : List ℕ → String
unfolding hex_digit
show_hex [] = ""
show_hex (b ∷ bs) = hex_digit (b / 16) <> hex_digit (b % 16) <> show_hex bs

-- Generate
unfoldable pub generate : (unix_nano : ℕ) → (random : Option (List ℕ)) → String
generate unix_nano none = "req_" <> show_nat unix_nano
generate unix_nano (some bytes) =
    let b = stamped bytes in
    show_hex (slice 0 4 b)
    <> "-"
    <> show_hex (slice 4 6 b)
    <> "-"
    <> show_hex (slice 6 8 b)
    <> "-"
    <> show_hex (slice 8 10 b)
    <> "-"
    <> show_hex (slice 10 16 b)
