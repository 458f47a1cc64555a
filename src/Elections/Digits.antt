-- ===== src/Elections/Digits.antt =====
-- The digits that `str` writes of a number, and what `number` reads of them.
use brasil_lens_backend.Common.{
  ℕ, zero, suc, ◌+◌, ◌-◌, ◌*◌, ◌/◌, ◌%◌, ◌<◌, ◌≡◌, ◌∙◌, refl, ap, true, some, List, [], ◌∷◌, ◌++◌,
  nat_eq, all_of, ltb, if◌then◌else◌, arith,
}
use mathlib.Core.List.{reverse, reverse_aux, reverse-reverse}
use brasil_lens_backend.Elections.Numbers.{
  pos, is_digit, skip_blanks, strip, read_digits, read_signed, to_int, number, digits, decimal,
}

abbrev value : ℕ → List ℕ → ℕ
value acc [] = acc
value acc (c ∷ cs) = value (10 * acc + (c - 48)) cs

read_digits-value :
    (acc : ℕ) (cs : List ℕ)
    → all_of is_digit cs ≡ true
    → read_digits acc true cs ≡ some (value acc cs)
unfolding read_digits
read_digits-value acc [] h = refl
read_digits-value acc (c ∷ cs) h = ground (arith, h, read_digits-value (10 * acc + (c - 48)) cs)

value-snoc :
    (acc : ℕ) (cs : List ℕ) (d : ℕ) → value acc (cs ++ d ∷ []) ≡ 10 * value acc cs + (d - 48)
value-snoc acc [] d = refl
value-snoc acc (c ∷ cs) d = value-snoc (10 * acc + (c - 48)) cs d

all_of-snoc :
    (cs : List ℕ) (d : ℕ)
    → all_of is_digit cs ≡ true
    → is_digit d ≡ true
    → all_of is_digit (cs ++ d ∷ []) ≡ true
all_of-snoc [] d h hd = ground (arith, hd)
all_of-snoc (c ∷ cs) d h hd = ground (arith, h, all_of-snoc cs d)

is_digit-mod : (n : ℕ) → is_digit (48 + n % 10) ≡ true
is_digit-mod n = ground arith

value-digits :
    (fuel n : ℕ)
    → n < fuel
    → (value 0 (digits fuel n) ≡ n) × (all_of is_digit (digits fuel n) ≡ true)
unfolding digits
value-digits zero n h = ground (arith, h)
value-digits (suc fuel) n h = ground (
  arith,
  h,
  value-snoc 0 (if ltb n 10 then [] else digits fuel (n / 10)) (48 + n % 10),
  all_of-snoc (if ltb n 10 then [] else digits fuel (n / 10)) (48 + n % 10),
  is_digit-mod n,
  value-digits fuel (n / 10),
)

-- Blanks are no digits, so nothing is stripped.
skip_blanks-digits : (cs : List ℕ) → all_of is_digit cs ≡ true → skip_blanks cs ≡ cs
unfolding skip_blanks
skip_blanks-digits [] h = refl
skip_blanks-digits (c ∷ cs) h = ground (arith, h)

all_of-reverse_aux :
    (cs ds : List ℕ)
    → all_of is_digit cs ≡ true
    → all_of is_digit ds ≡ true
    → all_of is_digit (reverse_aux cs ds) ≡ true
all_of-reverse_aux [] ds h k = k
all_of-reverse_aux (c ∷ cs) ds h k =
    all_of-reverse_aux cs (c ∷ ds) (ground (arith, h)) (ground (arith, h, k))

strip-digits : (cs : List ℕ) → all_of is_digit cs ≡ true → strip cs ≡ cs
unfolding strip
strip-digits cs h =
    ap (λ ds. reverse (skip_blanks (reverse ds))) (skip_blanks-digits cs h)
    ∙ ap reverse (skip_blanks-digits (reverse cs) (all_of-reverse_aux cs [] h refl))
    ∙ reverse-reverse cs

to_int-digits :
    (c : ℕ) (cs : List ℕ)
    → all_of is_digit (c ∷ cs) ≡ true
    → to_int (c ∷ cs) ≡ some (pos (value 0 (c ∷ cs)))
unfolding to_int read_signed read_digits
to_int-digits c cs h = ground (arith, h, strip-digits (c ∷ cs) h, read_digits-value (c - 48) cs)

snoc_cons : (xs : List ℕ) (d : ℕ) → (c : ℕ) × (cs : List ℕ) × (xs ++ d ∷ [] ≡ c ∷ cs)
snoc_cons [] d = (d, [], refl)
snoc_cons (x ∷ xs) d = (x, xs ++ d ∷ [], refl)

digits_cons : (fuel n : ℕ) → (c : ℕ) × (cs : List ℕ) × (digits (suc fuel) n ≡ c ∷ cs)
unfolding digits
digits_cons fuel n = snoc_cons (if ltb n 10 then [] else digits fuel (n / 10)) (48 + n % 10)

-- A number that is not negative is written in decimal digits and read back as it was.
pub number-decimal : (n : ℕ) → number (decimal (pos n)) ≡ some n
unfolding number decimal
number-decimal n =
    let (c, cs, e) = digits_cons n n in
    let (v, d) = value-digits (suc n) n (omega arith) in ground (arith, e, v, d, to_int-digits c cs)
