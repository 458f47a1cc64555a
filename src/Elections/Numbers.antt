-- ===== src/Elections/Numbers.antt =====
-- Python's `int` of a text, and `number` of app/providers/tse.py.
use brasil_lens_backend.Common.{
  ℕ, zero, suc, ◌+◌, ◌-◌, ◌*◌, ◌/◌, ◌%◌, ◌≡◌, ◌↔◌, Bool, true, false, not, ◌&&◌, ◌||◌, Option, none,
  some, List, [], ◌∷◌, ◌++◌, ◌==◌, ==_iff, HasEq, nat_eq, leb, ltb, if◌then◌else◌, arith,
}
use mathlib.Core.List.{reverse}

-- `negsuc n` is -(n + 1).
pub data ℤ : Type 0 where
  pos : ℕ → ℤ
  negsuc : ℕ → ℤ

abbrev pub integer_beq : ℤ → ℤ → Bool
integer_beq (pos m) (pos n) = m == n
integer_beq (negsuc m) (negsuc n) = m == n
integer_beq _ _ = false

pub integer_beq_iff : (a b : ℤ) → (integer_beq a b ≡ true) ↔ (a ≡ b)
integer_beq_iff (pos m) (pos n) = ground (arith, ==_iff m n)
integer_beq_iff (pos m) (negsuc n) = ground arith
integer_beq_iff (negsuc m) (pos n) = ground arith
integer_beq_iff (negsuc m) (negsuc n) = ground (arith, ==_iff m n)

instance abbrev pub integer_eq : HasEq ℤ
integer_eq = record { same_iff = integer_beq_iff; same = integer_beq }

abbrev pub negate : ℕ → ℤ
negate zero = pos 0
negate (suc n) = negsuc n

-- str.isspace on the characters of latin-1
abbrev pub is_blank : ℕ → Bool
is_blank c = (leb 9 c && leb c 13) || (leb 28 c && leb c 32) || c == 133 || c == 160

abbrev pub is_digit : ℕ → Bool
is_digit c = leb 48 c && leb c 57

unfoldable pub skip_blanks : List ℕ → List ℕ
skip_blanks [] = []
skip_blanks (c ∷ cs) = if is_blank c then skip_blanks cs else c ∷ cs

unfoldable pub strip : List ℕ → List ℕ
unfolding skip_blanks
strip cs = reverse (skip_blanks (reverse (skip_blanks cs)))

-- Digits, with single underscores between them; the flag says that the last was a digit.
unfoldable pub read_digits : ℕ → Bool → List ℕ → Option ℕ
read_digits acc true [] = some acc
read_digits acc false [] = none
read_digits acc last (c ∷ cs) = elim (is_digit c) [
  | true ↦ read_digits (10 * acc + (c - 48)) true cs
  | false ↦ elim (c == 95 && last) [ true ↦ read_digits acc false cs | false ↦ none ]
]

abbrev signed : (ℕ → ℤ) → Option ℕ → Option ℤ
signed f none = none
signed f (some n) = some (f n)

unfoldable pub read_signed : List ℕ → Option ℤ
unfolding read_digits
read_signed [] = none
read_signed (c ∷ cs) =
    if c == b'-'
    then signed negate (read_digits 0 false cs)
    else if c == b'+'
    then signed pos (read_digits 0 false cs)
    else signed pos (read_digits 0 false (c ∷ cs))

-- int(text), `none` for its ValueError
unfoldable pub to_int : List ℕ → Option ℤ
unfolding strip read_signed
to_int t = read_signed (strip t)

-- A number that is not negative.
unfoldable pub number : List ℕ → Option ℕ
unfolding to_int
number t = elim (to_int t) [ none ↦ none | some n ↦ elim n [ pos k ↦ some k | negsuc k ↦ none ] ]

abbrev pub max_integer : ℤ → ℤ → ℤ
max_integer (pos m) (pos n) = if ltb m n then pos n else pos m
max_integer (pos m) (negsuc _) = pos m
max_integer (negsuc _) (pos n) = pos n
max_integer (negsuc m) (negsuc n) = if ltb n m then negsuc n else negsuc m

abbrev pub integer_ltb : ℤ → ℤ → Bool
integer_ltb (pos m) (pos n) = ltb m n
integer_ltb (pos m) (negsuc _) = false
integer_ltb (negsuc _) (pos n) = true
integer_ltb (negsuc m) (negsuc n) = ltb n m

-- m - n
abbrev subtract : ℕ → ℕ → ℤ
subtract m n = if ltb m n then negsuc (n - m - 1) else pos (m - n)

abbrev pub add : ℤ → ℤ → ℤ
add (pos m) (pos n) = pos (m + n)
add (pos m) (negsuc n) = subtract m (n + 1)
add (negsuc m) (pos n) = subtract n (m + 1)
add (negsuc m) (negsuc n) = negsuc (m + n + 1)

-- The digits of a number, on fuel.
unfoldable pub digits : ℕ → ℕ → List ℕ
digits zero n = []
digits (suc fuel) n =
    let rest = digits fuel (n / 10) in (if ltb n 10 then [] else rest) ++ (48 + n % 10) ∷ []

-- str(n)
unfoldable pub decimal : ℤ → List ℕ
unfolding digits
decimal (pos n) = digits (n + 1) n
decimal (negsuc n) = b'-' ∷ digits (n + 2) (n + 1)

-- str.upper on a character of latin-1
abbrev upper_character : ℕ → List ℕ
upper_character c =
    if c == 223
    then b'S' ∷ b'S' ∷ []
    else if c == 181
    then 924 ∷ []
    else if c == 255
    then 376 ∷ []
    else if (leb 97 c && leb c 122) || (leb 224 c && leb c 254 && not (c == 247))
    then (c - 32) ∷ []
    else c ∷ []

unfoldable pub upper : List ℕ → List ℕ
upper [] = []
upper (c ∷ cs) = upper_character c ++ upper cs
