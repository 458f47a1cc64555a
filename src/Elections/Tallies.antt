-- ===== src/Elections/Tallies.antt =====
-- What `load_rows` has counted of a candidate in a place, and what it keeps of a candidate that two
-- batches name.
use brasil_lens_backend.Common.{
  ℕ, suc, ◌+◌, ◌≡◌, ◌&&◌, Option, none, some, List, [], ◌∷◌, ◌==◌, ==_iff, nat_eq, list_eq, pair_eq,
  lookup, lookup-set_item, or_default, is_some, if◌then◌else◌, arith,
}
use brasil_lens_backend.Elections.Numbers.{ℤ, pos, integer_eq}
use brasil_lens_backend.Elections.{Candidate, CandidateData, Counts}
use brasil_lens_backend.Elections.Offices.{Text, Place, place_eq}
use brasil_lens_backend.Elections.Load.{
  Entry, votes_entry, totals_entry, parties_entry, execute, execute_many, merge_row, merge_saved,
  is_elected,
}

-- The votes that the entries hold for a candidate in a place.
abbrev pub votes_in : Place → Text → List Entry → ℕ
votes_in place id [] = 0
votes_in place id (totals_entry _ _ ∷ es) = votes_in place id es
votes_in place id (parties_entry _ _ _ ∷ es) = votes_in place id es
votes_in place id (votes_entry p i n ∷ es) =
    (if p == place && i == id then n else 0) + votes_in place id es

execute-votes_in :
    (c : Counts) (e : Entry) (place : Place) (id : Text)
    → or_default (lookup (place, id) (execute c e).votes) 0
      ≡ or_default (lookup (place, id) c.votes) 0 + votes_in place id (e ∷ [])
unfolding execute
execute-votes_in c (totals_entry p t) place id = omega arith
execute-votes_in c (parties_entry p party n) place id = omega arith
execute-votes_in c (votes_entry p i n) place id = ground (
  arith,
  ==_iff {A = Place × Text} (p, i) (place, id),
  ==_iff p place,
  ==_iff i id,
  lookup-set_item (p, i) (place, id) n c.votes,
  lookup-set_item (p, i) (place, id) (or_default (lookup (p, i) c.votes) 0 + n) c.votes,
)

-- The votes of a candidate in a place, none where there is no row, are what was there before and the
-- sum of what the entries of the file hold for both.
pub execute_many-votes_in :
    (c : Counts) (es : List Entry) (place : Place) (id : Text)
    → or_default (lookup (place, id) (execute_many c es).votes) 0
      ≡ or_default (lookup (place, id) c.votes) 0 + votes_in place id es
unfolding execute_many
execute_many-votes_in c [] place id = omega arith
execute_many-votes_in c (totals_entry p t ∷ es) place id = ground (
  arith,
  execute-votes_in c (totals_entry p t) place id,
  execute_many-votes_in (execute c (totals_entry p t)) es place id,
)
execute_many-votes_in c (parties_entry p party n ∷ es) place id = ground (
  arith,
  execute-votes_in c (parties_entry p party n) place id,
  execute_many-votes_in (execute c (parties_entry p party n)) es place id,
)
execute_many-votes_in c (votes_entry p i n ∷ es) place id = ground (
  arith,
  execute-votes_in c (votes_entry p i n) place id,
  execute_many-votes_in (execute c (votes_entry p i n)) es place id,
)

-- A round that there can be.
abbrev pub IsRound : Option ℤ → Type 0
IsRound none = Unit
IsRound (some r) = (n : ℕ) × (r ≡ pos (suc n))

-- A candidate whose rows a flush falls between: where rounds are positive, and a row names a round
-- exactly if its status begins with ELEITO, saving the merged rows gives the round and the data that
-- saving one after the other gives.
pub merge_saved-merge_row :
    (saved : Option ℤ) (old : CandidateData) (previous : Candidate) (elected : Option ℤ)
    (new : CandidateData)
    → IsRound saved
    → IsRound previous.elected
    → IsRound elected
    → is_elected new.status ≡ is_some elected
    → merge_saved saved old
        (merge_row (some previous) elected new).0
        (merge_row (some previous) elected new).1
      ≡ merge_saved
          (merge_saved saved old previous.elected previous.data_json).0
          (merge_saved saved old previous.elected previous.data_json).1
          elected
          new
unfolding merge_saved merge_row
merge_saved-merge_row saved old previous elected new hs hp he status =
    ground (arith, hs, hp, he, status)
