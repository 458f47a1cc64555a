-- ===== src/Elections/Totalled.antt =====
-- The live results: the votes of a party are those of its candidates.
use brasil_lens_backend.Common.{
  ℕ, ◌+◌, ◌≡◌, refl, subst, ap, ◌∙◌, Bool, true, false, none, some, List, [], ◌∷◌, nat_eq,
  or_default, is_some, arith, All, map,
}
use brasil_lens_backend.Errors.{Result, ok, raise}
use brasil_lens_backend.Elections.Numbers.{ℤ, pos, negsuc, integer_eq, add, number, decimal}
use brasil_lens_backend.Elections.Digits.{number-decimal}
use brasil_lens_backend.Elections.{Row, int}
use brasil_lens_backend.Elections.Load.{starts_with}
use brasil_lens_backend.Elections.Live.{
  Families, live_people, live_party, party_families, person_row, with_row, valid_word,
}
use brasil_lens_backend.Elections.Documents.{Person, Party}

-- The votes of the rows of candidates, as `load_rows` reads them.
abbrev pub nominal_votes : List Row → ℕ
nominal_votes [] = 0
nominal_votes (row ∷ rows) =
    or_default (number row.qt_votos_nominais_validos) 0 + nominal_votes rows

abbrev IsCounted : Row → Type 0
IsCounted row = is_some (number row.qt_votos_nominais_validos) ≡ true

-- With rows that are all read as numbers, the sum is theirs over what it began with.
abbrev Sums : ℕ → Result (ℤ × List Row) → Type 0
Sums n (raise e) = Unit
Sums n (ok (total, rows)) = All IsCounted rows → total ≡ pos (n + nominal_votes rows)

Sums-with_row :
    (n k : ℕ) (row : Row) (r : Result (ℤ × List Row))
    → number row.qt_votos_nominais_validos ≡ some k
    → Sums (n + k) r
    → Sums n (with_row row r)
Sums-with_row n k row (raise e) h s = tt
Sums-with_row n k row (ok (total, rows)) h s = λ m. s m.1 ∙ ap pos (ground (arith, h))

Sums-uncounted :
    (n : ℕ) (row : Row) (r : Result (ℤ × List Row))
    → number row.qt_votos_nominais_validos ≡ none
    → Sums n (with_row row r)
Sums-uncounted n row (raise e) h = tt
Sums-uncounted n row (ok (total, rows)) h = λ m. ground (arith, h, m.0)

Sums-read_person :
    (n : ℕ) (row : Row) (r : Result ℤ) (rest : ℤ → Result (ℤ × List Row))
    → int row.qt_votos_nominais_validos ≡ r
    → ((k : ℕ) → Sums (n + k) (rest (pos k)))
    → Sums n (elim r [ raise e ↦ raise e | ok votes ↦ with_row row (rest votes) ])
unfolding number
Sums-read_person n row (raise e) rest h s = tt
Sums-read_person n row (ok (pos k)) rest h s =
    Sums-with_row n k row (rest (pos k)) (ground (arith, h)) (s k)
Sums-read_person n row (ok (negsuc k)) rest h s =
    Sums-uncounted n row (rest (negsuc k)) (ground (arith, h))

Sums-either :
    (n : ℕ) (b : Bool) (r t : Result (ℤ × List Row))
    → Sums n r
    → Sums n t
    → Sums n (elim b [ false ↦ r | true ↦ t ])
Sums-either n false r t hr ht = hr
Sums-either n true r t hr ht = ht

Sums-live_people :
    (common : Row) (party : Party) (n : ℕ) (people : List Person)
    → Sums n (live_people common party (pos n) people)
unfolding live_people person_row
Sums-live_people common party n [] = λ m. ap pos (omega arith)
Sums-live_people common party n (person ∷ people) =
    Sums-either n (starts_with valid_word person.dvt) (live_people common party (pos n) people)
      (elim (int person.vap) [
        | raise e ↦ raise e
        | ok votes ↦
            with_row (person_row party person common)
              (live_people common party (add (pos n) votes) people)
      ])
      (Sums-live_people common party n people)
      (Sums-read_person n (person_row party person common) (int person.vap)
        (λ votes. live_people common party (add (pos n) votes) people) refl
        (λ k. Sums-live_people common party (n + k) people))

abbrev Agrees : Result Families → Type 0
Agrees (raise e) = Unit
Agrees (ok families) =
    All IsCounted families.candidates
    → map (λ row. number row.qt_votos_nominais_validos) families.parties
      ≡ some (nominal_votes families.candidates) ∷ []

Agrees-party :
    (common : Row) (party : Party) (r : Result (ℤ × List Row))
    → Sums 0 r
    → Agrees (elim r [
      | raise e ↦ raise e
      | ok (valid, rows) ↦ ok (party_families common party valid rows)
    ])
Agrees-party common party (raise e) s = tt
Agrees-party common party (ok (valid, rows)) s = λ m.
    ap (λ v. number (decimal v) ∷ []) (s m ∙ ap pos (omega arith))
    ∙ ap (λ n. n ∷ []) (number-decimal (nominal_votes rows))

-- Where the votes of each candidate that a party's document counts can be read, the row of the party
-- carries exactly their sum: it is what `load_rows` reads of that row.
pub live_party-nominal_votes :
    (common : Row) (party : Party) (families : Families)
    → live_party common party ≡ ok families
    → All IsCounted families.candidates
    → map (λ row. number row.qt_votos_nominais_validos) families.parties
      ≡ some (nominal_votes families.candidates) ∷ []
unfolding live_party
live_party-nominal_votes common party families h m =
    subst Agrees h (Agrees-party common party _ (Sums-live_people common party 0 party.cand)) m
