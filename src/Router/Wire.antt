-- ===== src/Router/Wire.antt =====
-- The postgres packets of the readiness probe (src/router/wake.ts). A packet is the list of its
-- bytes.
use instacloud_oss.Base.{
  ℕ, zero, suc, ◌+◌, ◌*◌, ◌/◌, ◌%◌, ◌≡◌, ◌≢◌, ◌<◌, refl, List, [], ◌∷◌, ◌++◌, Option, none, some,
  if◌then◌else◌, nat_eq, length, drop, All, arith, length-append,
}

-- `writeUInt32BE`, for a number that has four bytes
abbrev pub be32 : ℕ → List ℕ
be32 n = n / 16777216 % 256 ∷ n / 65536 % 256 ∷ n / 256 % 256 ∷ n % 256 ∷ []

-- `${k}\0${v}\0`
unfoldable pub parameters : List (List ℕ × List ℕ) → List ℕ
parameters [] = []
parameters ((k, v) ∷ rest) = k ++ 0 ∷ v ++ 0 ∷ parameters rest

unfoldable pub startup_message : List (List ℕ × List ℕ) → List ℕ
startup_message params =
    let payload = 0 ∷ 3 ∷ 0 ∷ 0 ∷ parameters params ++ 0 ∷ [] in
    be32 (4 + length payload) ++ payload

-- The bytes before the first zero, and those after it.
unfoldable pub split_nul : List ℕ → Option (List ℕ × List ℕ)
split_nul [] = none
split_nul (zero ∷ bs) = some ([], bs)
split_nul (suc b ∷ bs) = elim (split_nul bs) [
  | none ↦ none
  | some (v, rest) ↦ some (suc b ∷ v, rest)
]

-- The loop of `errorResponseCode`; each round takes a byte at least.
unfoldable pub code_field : ℕ → List ℕ → Option (List ℕ)
code_field zero bs = none
code_field (suc n) [] = none
code_field (suc n) (zero ∷ bs) = none
code_field (suc n) (suc t ∷ bs) = elim (split_nul bs) [
  | none ↦ none
  | some (v, rest) ↦ let later = code_field n rest in if nat_eq (suc t) b'C' then some v else later
]

unfoldable pub error_response_code : List ℕ → Option (List ℕ)
error_response_code msg = code_field (length msg) (drop 5 msg)

-- The big-endian number at the head of a packet.
abbrev pub read_be32 : List ℕ → ℕ
read_be32 (a ∷ b ∷ c ∷ d ∷ bs) = ((a * 256 + b) * 256 + c) * 256 + d
read_be32 _ = 0

-- A startup packet begins with its own length, as long as that fits into 32 bits.
pub startup_message-length :
    (params : List (List ℕ × List ℕ))
    → length (startup_message params) < 4294967296
    → read_be32 (startup_message params) ≡ length (startup_message params)
unfolding startup_message
startup_message-length params h = framed (0 ∷ 3 ∷ 0 ∷ 0 ∷ parameters params ++ 0 ∷ []) h
  where
    framed :
        (payload : List ℕ)
        → length (be32 (4 + length payload) ++ payload) < 4294967296
        → read_be32 (be32 (4 + length payload) ++ payload)
          ≡ length (be32 (4 + length payload) ++ payload)
    framed payload l = omega arith

-- The fields of an error response as the server writes them.
abbrev pub write_fields : List (ℕ × List ℕ) → List ℕ
write_fields [] = 0 ∷ []
write_fields ((t, v) ∷ fs) = t ∷ v ++ 0 ∷ write_fields fs

abbrev pub first_code : List (ℕ × List ℕ) → Option (List ℕ)
first_code [] = none
first_code ((t, v) ∷ fs) = if nat_eq t b'C' then some v else first_code fs

abbrev pub IsText : ℕ × List ℕ → Type 0
IsText (t, v) = (t ≢ 0) × All (λ b. b ≢ 0) v

split_nul_append :
    (v rest : List ℕ) → All (λ b. b ≢ 0) v → split_nul (v ++ 0 ∷ rest) ≡ some (v, rest)
unfolding split_nul
split_nul_append [] rest h = refl
split_nul_append (zero ∷ v) rest (h, hs) = absurd (h refl)
split_nul_append (suc b ∷ v) rest (h, hs) = rw (split_nul_append v rest hs) refl

code_field_fields :
    (n : ℕ) (fs : List (ℕ × List ℕ))
    → All IsText fs
    → length fs < n
    → code_field n (write_fields fs) ≡ first_code fs
unfolding code_field
code_field_fields zero fs h l = absurd (omega arith)
code_field_fields (suc n) [] h l = refl
code_field_fields (suc n) ((zero, v) ∷ fs) ((h, _), hs) l = absurd (h refl)
code_field_fields (suc n) ((suc t, v) ∷ fs) ((h, k), hs) l =
    rw (split_nul_append v (write_fields fs) k, code_field, code_field_fields n fs hs (omega arith))
      refl

length-write_fields : (fs : List (ℕ × List ℕ)) → length fs < length (write_fields fs)
length-write_fields [] = omega arith
length-write_fields ((t, v) ∷ fs) =
    omega (arith, length-write_fields fs, length-append v (0 ∷ write_fields fs))

-- The code that is read out of an error response is the value of its first `C` field, for all
-- fields that the format can carry, and none where there is no such field.
pub error_response_code_fields :
    (a b c d e : ℕ) (fs : List (ℕ × List ℕ))
    → All IsText fs
    → error_response_code (a ∷ b ∷ c ∷ d ∷ e ∷ write_fields fs) ≡ first_code fs
unfolding error_response_code
error_response_code_fields a b c d e fs h =
    code_field_fields (suc (suc (suc (suc (suc (length (write_fields fs))))))) fs h
      (omega (arith, length-write_fields fs))
