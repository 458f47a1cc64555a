-- ===== src/Password/RoundTrip.antt =====
-- A stored password and what is read of it: the digest in hexadecimal, between dollar signs.
use brasil_lens_backend.Common.{
  ℕ, ◌+◌, ◌*◌, ◌/◌, ◌%◌, ◌<◌, ◌≡◌, refl, false, some, List, [], ◌∷◌, ◌++◌, arith, nat_beq, All,
}
use brasil_lens_backend.Password.{
  hex_digit, to_hex, digit_value, is_space, pair, from_hex, split_dollar, same_codes, scrypt_name,
  hash_password, verify_password,
}

abbrev pub IsByte : ℕ → Type 0
IsByte b = b < 256

digit_value-hex_digit :
    (n : ℕ)
    → n < 16
    → (digit_value (hex_digit n) ≡ some n)
      × (is_space (hex_digit n) ≡ false)
      × (nat_beq (hex_digit n) 36 ≡ false)
unfolding digit_value hex_digit is_space
digit_value-hex_digit n h = (ground arith, ground arith, ground arith)

pub from_hex-to_hex : (bs : List ℕ) → All IsByte bs → from_hex (to_hex bs) ≡ some bs
unfolding from_hex to_hex pair
from_hex-to_hex [] h = refl
from_hex-to_hex (b ∷ bs) h =
    let hi = digit_value-hex_digit (b / 16) (omega arith) in
    let lo = digit_value-hex_digit (b % 16) (omega arith) in
    rw (hi.1, hi.0, lo.0, from_hex-to_hex bs h.1)
      (let e : 16 * (b / 16) + b % 16 ≡ b = omega arith in rw e)

abbrev NoDollar : List ℕ → Type 0
NoDollar = All (λ c. nat_beq c 36 ≡ false)

NoDollar-to_hex : (bs : List ℕ) → All IsByte bs → NoDollar (to_hex bs)
unfolding to_hex
NoDollar-to_hex [] h = tt
NoDollar-to_hex (b ∷ bs) h = (
  (digit_value-hex_digit (b / 16) (omega arith)).2,
  ((digit_value-hex_digit (b % 16) (omega arith)).2, NoDollar-to_hex bs h.1),
)

split_dollar-append :
    (xs ys : List ℕ) → NoDollar xs → split_dollar (xs ++ (36 ∷ ys)) ≡ xs ∷ split_dollar ys
unfolding split_dollar
split_dollar-append [] ys h = refl
split_dollar-append (x ∷ xs) ys h = rw (split_dollar-append xs ys h.1, h.0)

split_dollar_last : (xs : List ℕ) → NoDollar xs → split_dollar xs ≡ xs ∷ []
unfolding split_dollar
split_dollar_last [] h = refl
split_dollar_last (x ∷ xs) h = rw (split_dollar_last xs h.1, h.0)

module _ (scrypt : List ℕ → List ℕ → List ℕ)
    (bytes : (p s : List ℕ) → All IsByte (scrypt p s)) where
  -- A password is accepted against a stored digest exactly when it has the same key as the password
  -- that was stored, with the salt that was stored; the salt is of bytes, and so are the keys.
  pub verify-hash_password :
      (password attempt salt : List ℕ)
      → All IsByte salt
      → verify_password scrypt attempt (hash_password scrypt password salt)
        ≡ same_codes (scrypt attempt salt) (scrypt password salt)
  unfolding verify_password hash_password
  verify-hash_password password attempt salt h =
      let key = scrypt password salt in
      rw (
        split_dollar-append scrypt_name (to_hex salt ++ (36 ∷ to_hex key))
            (refl, (refl, (refl, (refl, (refl, (refl, tt)))))),
        split_dollar-append (to_hex salt) (to_hex key) (NoDollar-to_hex salt h),
        split_dollar_last (to_hex key) (NoDollar-to_hex key (bytes password salt)),
        from_hex-to_hex salt h,
        from_hex-to_hex key (bytes password salt),
      )
