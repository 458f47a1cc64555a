-- ===== src/Hydrography/Joined.antt =====
-- What `_merge_lines` keeps of the pieces of a river: how often each edge is drawn.
use brasil_lens_backend.Common.{
  ℕ, ◌+◌, ◌≡◌, ◌∙◌, refl, Bool, true, false, not, ◌||◌, some, List, [], ◌∷◌, ◌++◌, ◌==◌, ==_iff,
  ==_refl, HasEq, nat_eq, option_eq, length, keep, any_of, All, All-map, All-append, lookup,
  Distinct, if◌then◌else◌, arith, Bool-cases, inl, inr,
}
use brasil_lens_backend.Hydrography.Lines.{
  is_line, indexed, is_used, is_continued, extend, merge_each, headwaters_first, merge_lines,
}
use brasil_lens_backend.Hydrography.Chains.{
  free, free-use, edge_count, extend-edges, extend-is_used, Distinct-indexed,
}

module _ {P : Type 0} ⦃e : HasEq P⦄ where
  -- How often the lines go from one point to another.
  abbrev pub all_edges : P → P → List (List P) → ℕ
  all_edges p q [] = 0
  all_edges p q (line ∷ lines) = edge_count p q line + all_edges p q lines

  all_edges-append :
      (p q : P) (xs ys : List (List P))
      → all_edges p q (xs ++ ys) ≡ all_edges p q xs + all_edges p q ys
  all_edges-append p q [] ys = omega arith
  all_edges-append p q (x ∷ xs) ys = omega (arith, all_edges-append p q xs ys)

  -- A piece of the list.
  abbrev IsPiece : List (ℕ × List P) → ℕ × List P → Type 0
  IsPiece pieces (i, line) = lookup i pieces ≡ some line

  merge_each-edges :
      (p q : P) (fuel : ℕ) (pieces todo : List (ℕ × List P)) (used : List ℕ)
      (merged : List (List P))
      → Distinct pieces
      → All (IsPiece pieces) todo
      → free (edge_count p q) (merge_each fuel pieces todo used merged).0 pieces
          + all_edges p q (merge_each fuel pieces todo used merged).1
        ≡ free (edge_count p q) used pieces + all_edges p q merged
  unfolding merge_each
  merge_each-edges p q fuel pieces [] used merged d t = refl
  merge_each-edges p q fuel pieces ((i, line) ∷ rest) used merged d t =
      elim (Bool-cases (is_used used i)) [
        | inl h ↦ ground (arith, h, merge_each-edges p q fuel pieces rest used merged d t.1)
        | inr h ↦ ground (
          arith,
          h,
          free-use (edge_count p q) used i line pieces d t.0 h,
          extend-edges p q fuel pieces (i ∷ used) line d,
          all_edges-append p q merged ((extend fuel pieces (i ∷ used) line).1 ∷ []),
          merge_each-edges p q fuel pieces rest (extend fuel pieces (i ∷ used) line).0
              (merged ++ (extend fuel pieces (i ∷ used) line).1 ∷ []) d t.1,
        )
      ]

  merge_each-is_used :
      (fuel : ℕ) (pieces todo : List (ℕ × List P)) (used : List ℕ) (merged : List (List P)) (j : ℕ)
      → is_used used j ≡ true
      → is_used (merge_each fuel pieces todo used merged).0 j ≡ true
  unfolding merge_each
  merge_each-is_used fuel pieces [] used merged j h = h
  merge_each-is_used fuel pieces ((i, line) ∷ rest) used merged j h =
      elim (Bool-cases (is_used used i)) [
        | inl u ↦ ground (arith, u, merge_each-is_used fuel pieces rest used merged j h)
        | inr u ↦ ground (
          arith,
          u,
          h,
          extend-is_used fuel pieces (i ∷ used) line j,
          merge_each-is_used fuel pieces rest (extend fuel pieces (i ∷ used) line).0
              (merged ++ (extend fuel pieces (i ∷ used) line).1 ∷ []) j,
        )
      ]

  -- Every piece of the order is used in the end.
  merge_each-all_used :
      (fuel : ℕ) (pieces todo : List (ℕ × List P)) (used : List ℕ) (merged : List (List P)) (j : ℕ)
      → any_of (λ piece. piece.0 == j) todo ≡ true
      → is_used (merge_each fuel pieces todo used merged).0 j ≡ true
  unfolding merge_each
  merge_each-all_used fuel pieces [] used merged j h = ground (arith, h)
  merge_each-all_used fuel pieces ((i, line) ∷ rest) used merged j h =
      elim (Bool-cases (is_used used i)) [
        | inl u ↦ ground (
          arith,
          u,
          h,
          ==_iff i j,
          merge_each-is_used fuel pieces rest used merged j,
          merge_each-all_used fuel pieces rest used merged j,
        )
        | inr u ↦ ground (
          arith,
          u,
          h,
          ==_iff i j,
          ==_refl i,
          extend-is_used fuel pieces (i ∷ used) line j,
          merge_each-is_used fuel pieces rest (extend fuel pieces (i ∷ used) line).0
              (merged ++ (extend fuel pieces (i ∷ used) line).1 ∷ []) j,
          merge_each-all_used fuel pieces rest (extend fuel pieces (i ∷ used) line).0
              (merged ++ (extend fuel pieces (i ∷ used) line).1 ∷ []) j,
        )
      ]

  any_of-append :
      (q : ℕ × List P → Bool) (xs ys : List (ℕ × List P))
      → any_of q (xs ++ ys) ≡ (any_of q xs || any_of q ys)
  any_of-append q [] ys = refl
  any_of-append q (x ∷ xs) ys = ground (arith, any_of-append q xs ys)

  any_of-parts :
      (q p : ℕ × List P → Bool) (xs : List (ℕ × List P))
      → (any_of q (keep (λ x. not (p x)) xs) || any_of q (keep p xs)) ≡ any_of q xs
  any_of-parts q p [] = refl
  any_of-parts q p (x ∷ xs) = ground (arith, any_of-parts q p xs)

  any_of-headwaters_first :
      (lines : List (List P)) (pieces : List (ℕ × List P)) (j : ℕ)
      → any_of (λ piece. piece.0 == j) (headwaters_first lines pieces)
        ≡ any_of (λ piece. piece.0 == j) pieces
  unfolding headwaters_first
  any_of-headwaters_first lines pieces j =
      any_of-append (λ piece. piece.0 == j)
        (keep (λ piece. not (is_continued lines piece.1)) pieces)
        (keep (λ piece. is_continued lines piece.1) pieces)
      ∙ any_of-parts (λ piece. piece.0 == j) (λ piece. is_continued lines piece.1) pieces

  All-kept :
      (Q : ℕ × List P → Type 0) (b : Bool) (x : ℕ × List P) (xs : List (ℕ × List P))
      → Q x
      → All Q xs
      → All Q (if b then x ∷ xs else xs)
  All-kept Q true x xs q h = (q, h)
  All-kept Q false x xs q h = h

  All-keep :
      (Q : ℕ × List P → Type 0) (p : ℕ × List P → Bool) (xs : List (ℕ × List P))
      → All Q xs
      → All Q (keep p xs)
  All-keep Q p [] h = tt
  All-keep Q p (x ∷ xs) h = All-kept Q (p x) x (keep p xs) h.0 (All-keep Q p xs h.1)

  All-headwaters_first :
      (Q : ℕ × List P → Type 0) (lines : List (List P)) (pieces : List (ℕ × List P))
      → All Q pieces
      → All Q (headwaters_first lines pieces)
  unfolding headwaters_first
  All-headwaters_first Q lines pieces h =
      All-append Q _ _ (All-keep Q (λ piece. not (is_continued lines piece.1)) pieces h)
        (All-keep Q (λ piece. is_continued lines piece.1) pieces h)

  -- Pieces that are all used weigh nothing more.
  free_none :
      (w : List P → ℕ) (used : List ℕ) (pieces : List (ℕ × List P))
      → All (λ piece. is_used used piece.0 ≡ true) pieces
      → free w used pieces ≡ 0
  free_none w used [] h = refl
  free_none w used ((i, line) ∷ pieces) h = ground (arith, h.0, free_none w used pieces h.1)

  All-is_used :
      (used : List ℕ) (pieces : List (ℕ × List P))
      → ((j : ℕ) → any_of (λ piece. piece.0 == j) pieces ≡ true → is_used used j ≡ true)
      → All (λ piece. is_used used piece.0 ≡ true) pieces
  All-is_used used [] f = tt
  All-is_used used ((i, line) ∷ pieces) f =
      (f i (ground (arith, ==_refl i)), All-is_used used pieces (λ j h. f j (ground (arith, h))))

  All-lookup :
      (pieces : List (ℕ × List P))
      → Distinct pieces
      → All (λ piece. lookup piece.0 pieces ≡ some piece.1) pieces
  unfolding lookup
  All-lookup [] d = tt
  All-lookup ((i, line) ∷ pieces) d = (
    ground (arith, ==_refl i),
    All-map _ _ pieces (λ piece h. ground (arith, h, d.0, ==_iff i piece.0))
        (All-lookup pieces d.1),
  )

  free-indexed :
      (p q : P) (all : List (List P)) (k : ℕ)
      → free (edge_count p q) [] (indexed k (keep is_line all)) ≡ all_edges p q all
  unfolding indexed edge_count
  free-indexed p q [] k = refl
  free-indexed p q ([] ∷ all) k = ground (arith, free-indexed p q all k)
  free-indexed p q ((a ∷ line) ∷ all) k = ground (arith, free-indexed p q all (k + 1))

  -- Whatever two points are taken, the joined lines go from the one to the other as often as the
  -- pieces did: no edge of a piece is lost or drawn again, and the joints add none.
  pub all_edges-merge_lines :
      (p q : P) (all : List (List P)) → all_edges p q (merge_lines all) ≡ all_edges p q all
  unfolding merge_lines
  all_edges-merge_lines p q all =
      let lines : List (List P) = keep is_line all in
      let pieces : List (ℕ × List P) = indexed 0 lines in
      let d : Distinct pieces = Distinct-indexed lines 0 in
      let order : List (ℕ × List P) = headwaters_first lines pieces in
      let t : All (IsPiece pieces) order =
        All-headwaters_first (IsPiece pieces) lines pieces (All-lookup pieces d) in
      let merged = merge_each-edges p q (length lines) pieces order [] [] d t in
      let done = free_none (edge_count p q) _ pieces (
        All-is_used (merge_each (length lines) pieces order [] []).0 pieces (λ j h.
          merge_each-all_used (length lines) pieces order [] [] j
            (any_of-headwaters_first lines pieces j ∙ h))) in
      omega (arith, merged, done, free-indexed p q all 0)
