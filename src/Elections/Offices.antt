-- ===== src/Elections/Offices.antt =====
-- app/providers/tse.py: the offices, and whose votes are counted.
use brasil_lens_backend.Common.{
  ℕ, ◌≡◌, ◌↔◌, Bool, true, false, ◌&&◌, List, [], ◌∷◌, ◌==◌, ==_iff, HasEq, nat_eq, list_eq, arith,
}
use brasil_lens_backend.Elections.Numbers.{ℤ, pos, integer_eq}

abbrev pub Text : Type 0
Text = List ℕ

pub data Office : Type 0 where
  president : Office
  governor : Office
  senator : Office
  federal_deputy : Office
  state_deputy : Office
  mayor : Office
  councillor : Office

abbrev pub office_beq : Office → Office → Bool
office_beq president president = true
office_beq governor governor = true
office_beq senator senator = true
office_beq federal_deputy federal_deputy = true
office_beq state_deputy state_deputy = true
office_beq mayor mayor = true
office_beq councillor councillor = true
office_beq _ _ = false

pub office_beq_iff : (a b : Office) → (office_beq a b ≡ true) ↔ (a ≡ b)
office_beq_iff president b = ground arith
office_beq_iff governor b = ground arith
office_beq_iff senator b = ground arith
office_beq_iff federal_deputy b = ground arith
office_beq_iff state_deputy b = ground arith
office_beq_iff mayor b = ground arith
office_beq_iff councillor b = ground arith

instance abbrev pub office_eq : HasEq Office
office_eq = record { same_iff = office_beq_iff; same = office_beq }

-- OFFICES
abbrev pub offices : List (ℤ × Office)
offices =
    (pos 1, president)
    ∷ (pos 3, governor)
    ∷ (pos 5, senator)
    ∷ (pos 6, federal_deputy)
    ∷ (pos 7, state_deputy)
    ∷ (pos 8, state_deputy)
    ∷ (pos 11, mayor)
    ∷ (pos 13, councillor)
    ∷ []

-- MUNICIPAL_OFFICES
abbrev pub is_municipal : Office → Bool
is_municipal mayor = true
is_municipal councillor = true
is_municipal _ = false

-- Whose votes: an office, a round and a territory.
pub record Place : Type 0 where
  pub office : Office
  pub election_round : ℤ
  pub code : Text

abbrev pub place_beq : Place → Place → Bool
place_beq a b = a.office == b.office && a.election_round == b.election_round && a.code == b.code

pub place_beq_iff : (a b : Place) → (place_beq a b ≡ true) ↔ (a ≡ b)
place_beq_iff a b = ground (
  arith,
  ==_iff a.office b.office,
  ==_iff a.election_round b.election_round,
  ==_iff a.code b.code,
)

instance abbrev pub place_eq : HasEq Place
place_eq = record { same_iff = place_beq_iff; same = place_beq }
