-- ===== src/Hydrography/Chains.antt =====
-- app/services/hydrography.py, the inner loop of `_merge_lines`: what the pieces that are used weigh,
-- and how a chain ends.
use brasil_lens_backend.Common.{
  ℕ, zero, suc, ◌+◌, ◌≤◌, ◌<◌, ◌≡◌, refl, ap, Bool, true, false, not, ◌&&◌, Option, none, some,
  List, [], ◌∷◌, ◌++◌, ◌==◌, ==_iff, HasEq, nat_eq, option_eq, drop, lookup, Distinct, find_first,
  find_first-holds, if◌then◌else◌, arith, Option-cases, inl, inr,
}
use brasil_lens_backend.Hydrography.Lines.{
  first_point, last_point, indexed, is_used, following, extend,
}

module _ {P : Type 0} ⦃e : HasEq P⦄ where
  -- The sum of a weight over the pieces that are not used.
  abbrev pub free : (List P → ℕ) → List ℕ → List (ℕ × List P) → ℕ
  free w used [] = 0
  free w used ((i, line) ∷ pieces) = (if is_used used i then 0 else w line) + free w used pieces

  free-other :
      (w : List P → ℕ) (used : List ℕ) (i : ℕ) (pieces : List (ℕ × List P))
      → lookup i pieces ≡ none
      → free w (i ∷ used) pieces ≡ free w used pieces
  unfolding lookup
  free-other w used i [] h = refl
  free-other w used i ((j, line) ∷ pieces) h =
      ground (arith, h, ==_iff i j, free-other w used i pieces)

  pub free-use :
      (w : List P → ℕ) (used : List ℕ) (i : ℕ) (line : List P) (pieces : List (ℕ × List P))
      → Distinct pieces
      → lookup i pieces ≡ some line
      → is_used used i ≡ false
      → free w (i ∷ used) pieces + w line ≡ free w used pieces
  unfolding lookup
  free-use w used i line [] d h u = ground (arith, h)
  free-use w used i line ((j, other) ∷ pieces) d h u = ground (
    arith,
    h,
    u,
    d.0,
    ==_iff i j,
    ==_iff j i,
    free-other w used j pieces d.0,
    free-use w used i line pieces d.1,
  )

  find_first-lookup :
      (p : ℕ × List P → Bool) (pieces : List (ℕ × List P)) (i : ℕ) (line : List P)
      → Distinct pieces
      → find_first p pieces ≡ some (i, line)
      → lookup i pieces ≡ some line
  unfolding lookup
  find_first-lookup p [] i line d h = ground (arith, h)
  find_first-lookup p ((j, other) ∷ pieces) i line d h =
      ground (arith, h, d.0, ==_iff j i, find_first-lookup p pieces i line d.1)

  lookup-indexed_lt : (lines : List (List P)) (k i : ℕ) → i < k → lookup i (indexed k lines) ≡ none
  unfolding lookup indexed
  lookup-indexed_lt [] k i h = refl
  lookup-indexed_lt (line ∷ lines) k i h =
      ground (arith, h, ==_iff k i, lookup-indexed_lt lines (k + 1) i)

  pub Distinct-indexed : (lines : List (List P)) (k : ℕ) → Distinct (indexed k lines)
  unfolding indexed
  Distinct-indexed [] k = tt
  Distinct-indexed (line ∷ lines) k =
      (lookup-indexed_lt lines (k + 1) k (omega arith), Distinct-indexed lines (k + 1))

  -- A piece that follows is one of the pieces, is not used, and begins where it should.
  following_lem :
      (pieces : List (ℕ × List P)) (used : List ℕ) (point : Option P) (i : ℕ) (line : List P)
      → Distinct pieces
      → following pieces used point ≡ some (i, line)
      → (lookup i pieces ≡ some line) × (is_used used i ≡ false) × (first_point line ≡ point)
  unfolding following
  following_lem pieces used point i line d h =
      let holds =
        find_first-holds (λ (i, line). first_point line == point && not (is_used used i)) pieces
          (i, line) h in
      (
        find_first-lookup _ pieces i line d h,
        ground (arith, holds),
        ground (arith, holds, ==_iff (first_point line) point),
      )

  -- How often a line goes from one point to another.
  unfoldable pub edge_count : P → P → List P → ℕ
  edge_count p q [] = 0
  edge_count p q (a ∷ []) = 0
  edge_count p q (a ∷ b ∷ line) =
      let rest = edge_count p q (b ∷ line) in if a == p && b == q then suc rest else rest

  -- A line that begins where a chain ends is joined to it without its first point, and no edge is
  -- lost or added.
  edge_count-join :
      (p q : P) (chain line : List P)
      → first_point line ≡ last_point chain
      → edge_count p q (chain ++ drop 1 line) ≡ edge_count p q chain + edge_count p q line
  unfolding edge_count last_point
  edge_count-join p q [] [] h = refl
  edge_count-join p q [] (a ∷ line) h = cc h
  edge_count-join p q (a ∷ []) [] h = omega arith
  edge_count-join p q (a ∷ []) (b ∷ line) h =
      let same : a ≡ b = cc h in omega (arith, ap (λ x. edge_count p q (x ∷ line)) same)
  edge_count-join p q (a ∷ b ∷ chain) line h =
      ground (arith, edge_count-join p q (b ∷ chain) line h)

  -- The inner loop: the edges of the pieces that it uses go over to the chain.
  pub extend-edges :
      (p q : P) (fuel : ℕ) (pieces : List (ℕ × List P)) (used : List ℕ) (chain : List P)
      → Distinct pieces
      → free (edge_count p q) (extend fuel pieces used chain).0 pieces
          + edge_count p q (extend fuel pieces used chain).1
        ≡ free (edge_count p q) used pieces + edge_count p q chain
  unfolding extend
  extend-edges p q zero pieces used chain d = refl
  extend-edges p q (suc fuel) pieces used chain d =
      elim (Option-cases (following pieces used (last_point chain))) [
        | inl h ↦ ground (arith, h)
        | inr ((i, line), h) ↦
            let (l, u, b) = following_lem pieces used (last_point chain) i line d h in
            ground (
              arith,
              h,
              edge_count-join p q chain line b,
              free-use (edge_count p q) used i line pieces d l u,
              extend-edges p q fuel pieces (i ∷ used) (chain ++ drop 1 line) d,
            )
      ]

  pub extend-is_used :
      (fuel : ℕ) (pieces : List (ℕ × List P)) (used : List ℕ) (chain : List P) (j : ℕ)
      → is_used used j ≡ true
      → is_used (extend fuel pieces used chain).0 j ≡ true
  unfolding extend
  extend-is_used zero pieces used chain j h = h
  extend-is_used (suc fuel) pieces used chain j h =
      elim (Option-cases (following pieces used (last_point chain))) [
        | inl o ↦ ground (arith, h, o)
        | inr ((i, line), o) ↦
            ground (arith, h, o, extend-is_used fuel pieces (i ∷ used) (chain ++ drop 1 line) j)
      ]

  abbrev pub unused : List ℕ → List (ℕ × List P) → ℕ
  unused used pieces = free (λ line. 1) used pieces

  -- Where there is fuel for each piece that is not used, the inner loop ends for want of a piece that
  -- goes on from the end of the chain, and not for want of fuel.
  pub extend-following :
      (fuel : ℕ) (pieces : List (ℕ × List P)) (used : List ℕ) (chain : List P)
      → Distinct pieces
      → unused used pieces ≤ fuel
      → following pieces
          (extend fuel pieces used chain).0
          (last_point (extend fuel pieces used chain).1)
        ≡ none
  unfolding extend
  extend-following zero pieces used chain d f =
      elim (Option-cases (following pieces used (last_point chain))) [
        | inl h ↦ h
        | inr ((i, line), h) ↦
            let (l, u, b) = following_lem pieces used (last_point chain) i line d h in
            ground (arith, f, free-use (λ line. 1) used i line pieces d l u)
      ]
  extend-following (suc fuel) pieces used chain d f =
      elim (Option-cases (following pieces used (last_point chain))) [
        | inl h ↦ ground (arith, h)
        | inr ((i, line), h) ↦
            let (l, u, b) = following_lem pieces used (last_point chain) i line d h in
            ground (
              arith,
              h,
              f,
              free-use (λ line. 1) used i line pieces d l u,
              extend-following fuel pieces (i ∷ used) (chain ++ drop 1 line) d,
            )
      ]
