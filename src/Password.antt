-- ===== src/Password.antt =====
-- app/core/auth.py: `hash_password` and `verify_password`. Texts and byte strings are lists of
-- codes; `scrypt` with its fixed cost is a parameter, from the password and the salt to the key.
pub mod RoundTrip
use brasil_lens_backend.Common.{
  ℕ, zero, suc, ◌+◌, ◌-◌, ◌*◌, ◌/◌, ◌%◌, ◌≤◌, ◌<◌, ◌≡◌, refl, Bool, true, false, ◌&&◌, ◌||◌, Option,
  none, some, List, [], ◌∷◌, ◌++◌, arith, leb, nat_beq, if◌then◌else◌,
}

-- bytes.hex()
unfoldable pub hex_digit : ℕ → ℕ
hex_digit n = if leb n 9 then 48 + n else 87 + n

unfoldable pub to_hex : List ℕ → List ℕ
unfolding hex_digit
to_hex [] = []
to_hex (b ∷ bs) = hex_digit (b / 16) ∷ hex_digit (b % 16) ∷ to_hex bs

unfoldable pub digit_value : ℕ → Option ℕ
digit_value c =
    if leb 48 c && leb c 57
    then some (c - 48)
    else if leb 97 c && leb c 102
    then some (c - 87)
    else if leb 65 c && leb c 70
    then some (c - 55)
    else none

-- The white space that `bytes.fromhex` skips between bytes.
unfoldable pub is_space : ℕ → Bool
is_space c = nat_beq c 32 || (leb 9 c && leb c 13)

pair : Option ℕ → Option ℕ → Option (List ℕ) → Option (List ℕ)
pair (some h) (some l) (some bs) = some ((16 * h + l) ∷ bs)
pair _ _ _ = none

-- bytes.fromhex(text), `none` for its ValueError
unfoldable pub from_hex : List ℕ → Option (List ℕ)
unfolding digit_value is_space pair
from_hex [] = some []
from_hex (c ∷ []) = if is_space c then some [] else none
from_hex (c ∷ d ∷ cs) =
    let skipped = from_hex (d ∷ cs) in
    let rest = from_hex cs in
    if is_space c then skipped else pair (digit_value c) (digit_value d) rest

-- encoded.split("$")
unfoldable pub split_dollar : List ℕ → List (List ℕ)
split_dollar [] = [] ∷ []
split_dollar (c ∷ cs) =
    if nat_beq c 36
    then [] ∷ split_dollar cs
    else elim (split_dollar cs) [ [] ↦ (c ∷ []) ∷ [] | piece ∷ pieces ↦ (c ∷ piece) ∷ pieces ]

abbrev pub same_codes : List ℕ → List ℕ → Bool
same_codes [] [] = true
same_codes (a ∷ cs) (b ∷ ds) = nat_beq a b && same_codes cs ds
same_codes _ _ = false

-- "scrypt" and "scrypt$"
abbrev pub scrypt_name : List ℕ
scrypt_name = b's' ∷ b'c' ∷ b'r' ∷ b'y' ∷ b'p' ∷ b't' ∷ []

module _ (scrypt : List ℕ → List ℕ → List ℕ) where
  -- The salt is drawn by the caller here.
  unfoldable pub hash_password : List ℕ → List ℕ → List ℕ
  hash_password password salt =
      scrypt_name ++ (36 ∷ (to_hex salt ++ (36 ∷ to_hex (scrypt password salt))))

  verify_parts : List ℕ → List (List ℕ) → Bool
  verify_parts password (algorithm ∷ salt ∷ expected ∷ []) =
      if same_codes algorithm scrypt_name
      then elim (from_hex salt) [
        | none ↦ false
        | some s ↦ elim (from_hex expected) [
          | none ↦ false
          | some key ↦ same_codes (scrypt password s) key
        ]
      ]
      else false
  verify_parts password _ = false

  unfoldable pub verify_password : List ℕ → List ℕ → Bool
  unfolding verify_parts
  verify_password password encoded = verify_parts password (split_dollar encoded)
