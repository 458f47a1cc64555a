-- ===== src/Hydrography/Lines.antt =====
-- app/services/hydrography.py, `_merge_lines`: pieces of a river are joined where one begins where
-- another ends. A piece is known by its index.
use brasil_lens_backend.Common.{
  ℕ, zero, suc, ◌+◌, Bool, true, false, not, ◌&&◌, Option, none, some, List, [], ◌∷◌, ◌++◌, ◌==◌,
  HasEq, nat_eq, option_eq, length, drop, keep, any_of, find_first,
}

-- `index in used`
abbrev pub is_used : List ℕ → ℕ → Bool
is_used used i = any_of (λ j. j == i) used

module _ {P : Type 0} where
  abbrev pub first_point : List P → Option P
  first_point [] = none
  first_point (p ∷ ps) = some p

  unfoldable pub last_point : List P → Option P
  last_point [] = none
  last_point (p ∷ []) = some p
  last_point (p ∷ q ∷ ps) = last_point (q ∷ ps)

  abbrev pub is_line : List P → Bool
  is_line [] = false
  is_line (p ∷ ps) = true

  -- enumerate(lines)
  unfoldable pub indexed : ℕ → List (List P) → List (ℕ × List P)
  indexed i [] = []
  indexed i (line ∷ lines) = (i, line) ∷ indexed (i + 1) lines

module _ {P : Type 0} ⦃e : HasEq P⦄ where
  -- tuple(line[0]) in continued
  abbrev pub is_continued : List (List P) → List P → Bool
  is_continued lines line = any_of (λ other. last_point other == first_point line) lines

  -- The first of the pieces that begin at a point, by index, and are not used.
  unfoldable pub following : List (ℕ × List P) → List ℕ → Option P → Option (ℕ × List P)
  following pieces used point =
      find_first (λ (i, line). first_point line == point && not (is_used used i)) pieces

  -- The inner loop: what is used, and the chain. It ends when no piece follows, or the fuel does.
  unfoldable pub extend : ℕ → List (ℕ × List P) → List ℕ → List P → List ℕ × List P
  unfolding following last_point
  extend zero pieces used chain = (used, chain)
  extend (suc fuel) pieces used chain = elim (following pieces used (last_point chain)) [
    | none ↦ (used, chain)
    | some (i, line) ↦ extend fuel pieces (i ∷ used) (chain ++ drop 1 line)
  ]

  -- The outer loop, over the pieces in an order.
  unfoldable pub merge_each :
      ℕ → List (ℕ × List P) → List (ℕ × List P) → List ℕ → List (List P) → List ℕ × List (List P)
  unfolding extend
  merge_each fuel pieces [] used merged = (used, merged)
  merge_each fuel pieces ((i, line) ∷ rest) used merged = elim (is_used used i) [
    | true ↦ merge_each fuel pieces rest used merged
    | false ↦
        let (used', chain) = extend fuel pieces (i ∷ used) line in
        merge_each fuel pieces rest used' (merged ++ chain ∷ [])
  ]

  -- sorted(…, key=…) on a Boolean key: those that nothing continues come first, and each part keeps
  -- its order
  unfoldable pub headwaters_first : List (List P) → List (ℕ × List P) → List (ℕ × List P)
  headwaters_first lines pieces =
      keep (λ piece. not (is_continued lines piece.1)) pieces
      ++ keep (λ piece. is_continued lines piece.1) pieces

  -- As much fuel as there are pieces.
  unfoldable pub merge_lines : List (List P) → List (List P)
  unfolding indexed headwaters_first merge_each
  merge_lines all =
      let lines = keep is_line all in
      let pieces = indexed 0 lines in
      (merge_each (length lines) pieces (headwaters_first lines pieces) [] []).1
