-- ===== src/Hydrography/Simplified.antt =====
-- The loop of `_simplify_line`, and the ends of the line that it leaves.
use brasil_lens_backend.Common.{
  Arithmetic, ℕ, zero, suc, ◌+◌, ◌-◌, ◌*◌, ◌≤◌, ◌<◌, ◌≡◌, ◌∙◌, refl, ap, Bool, true, ◌&&◌, Option,
  none, some, List, [], ◌∷◌, nat_eq, length, length-take, take, drop, map, ltb, leb, Option-cases,
  Bool-cases, inl, inr, arith, All,
}
use brasil_lens_backend.Hydrography.{Point}
use brasil_lens_backend.Hydrography.Lines.{is_used, first_point, last_point}
use brasil_lens_backend.Hydrography.Shapes.{
  nth, distance, farthest, split_of, simplify_loop, select, rounded, simplify_line,
}

module _ {A : Type 0} (r : Arithmetic A) where
  -- An index from a bound on and below another.
  abbrev is_within : ℕ → ℕ → Option ℕ → Bool
  is_within lo hi none = true
  is_within lo hi (some j) = leb lo j && ltb j hi

  is_within_next :
      (old : Option ℕ) (i lo : ℕ) → is_within lo i old ≡ true → is_within lo (i + 1) old ≡ true
  is_within_next none i lo o = refl
  is_within_next (some j) i lo o = ground (arith, o)

  farthest-is_within :
      (a b : Point A) (greatest : A) (i lo : ℕ) (ps : List (Point A)) (old : Option ℕ)
      → is_within lo i old ≡ true
      → lo ≤ i
      → is_within lo (i + length ps) (farthest r a b greatest old i ps) ≡ true
  unfolding farthest
  farthest-is_within a b greatest i lo [] none o l = refl
  farthest-is_within a b greatest i lo [] (some j) o l = ground (arith, o, l)
  farthest-is_within a b greatest i lo (p ∷ ps) old o l =
      elim (Bool-cases (r.below greatest (distance r a b p))) [
        | inl h ↦ ground (
          arith,
          h,
          l,
          farthest-is_within a b (distance r a b p) (i + 1) lo ps (some i) (ground (arith, l)),
        )
        | inr h ↦ ground (
          arith,
          h,
          l,
          farthest-is_within a b greatest (i + 1) lo ps old (is_within_next old i lo o),
        )
      ]

  split_bounds :
      (points : List (Point A)) (tolerance : A) (start end k : ℕ)
      → split_of r points tolerance start end ≡ some k
      → (start < k) × (k < end)
  unfolding split_of
  split_bounds points tolerance start end k h = ground (
    arith,
    h,
    length-take (end - start - 1) (drop (start + 1) points),
    farthest-is_within (nth r points start) (nth r points end) (r.times tolerance tolerance)
        (start + 1) (start + 1) (take (end - start - 1) (drop (start + 1) points)) none refl
        (omega arith),
  )

  -- What the stack has in front of it.
  abbrev pub work : List (ℕ × ℕ) → ℕ
  work [] = 0
  work ((start, end) ∷ stack) = 2 * (end - start) - 1 + work stack

  abbrev IsSpan : ℕ × ℕ → Type 0
  IsSpan (start, end) = start < end

  simplify_loop-ends :
      (fuel : ℕ) (points : List (Point A)) (tolerance : A) (stack : List (ℕ × ℕ)) (kept : List ℕ)
      → All IsSpan stack
      → work stack ≤ fuel
      → (simplify_loop r fuel points tolerance stack kept).0 ≡ []
  unfolding simplify_loop
  simplify_loop-ends zero points tolerance [] kept s f = refl
  simplify_loop-ends zero points tolerance ((start, end) ∷ stack) kept s f = ground (arith, f, s.0)
  simplify_loop-ends (suc fuel) points tolerance [] kept s f = refl
  simplify_loop-ends (suc fuel) points tolerance ((start, end) ∷ stack) kept s f =
      elim (Option-cases (split_of r points tolerance start end)) [
        | inl h ↦ ground (arith, h, f, s.0, simplify_loop-ends fuel points tolerance stack kept s.1)
        | inr (k, h) ↦
            let (lo, hi) = split_bounds points tolerance start end k h in
            ground (
              arith,
              h,
              f,
              lo,
              hi,
              simplify_loop-ends fuel points tolerance ((k, end) ∷ (start, k) ∷ stack) (k ∷ kept)
                  (hi, (lo, s.1)),
            )
      ]

  -- What is kept stays kept.
  simplify_loop-is_used :
      (fuel : ℕ) (points : List (Point A)) (tolerance : A) (stack : List (ℕ × ℕ)) (kept : List ℕ)
      (j : ℕ)
      → is_used kept j ≡ true
      → is_used (simplify_loop r fuel points tolerance stack kept).1 j ≡ true
  unfolding simplify_loop
  simplify_loop-is_used zero points tolerance stack kept j h = h
  simplify_loop-is_used (suc fuel) points tolerance [] kept j h = h
  simplify_loop-is_used (suc fuel) points tolerance ((start, end) ∷ stack) kept j h =
      elim (Option-cases (split_of r points tolerance start end)) [
        | inl o ↦ ground (arith, h, o, simplify_loop-is_used fuel points tolerance stack kept j h)
        | inr (k, o) ↦ ground (
          arith,
          h,
          o,
          simplify_loop-is_used fuel points tolerance ((k, end) ∷ (start, k) ∷ stack) (k ∷ kept) j,
        )
      ]

  abbrev pub rounded_end : Option (Point A) → Option (Point A)
  rounded_end none = none
  rounded_end (some p) = some (rounded r p)

  -- On a line of three points at least, `_simplify_line` ends with nothing left to split: a stack is
  -- emptied is_within twice as many turns as the line has points.
  pub simplify_loop_lem :
      (points : List (Point A)) (tolerance : A) (kept : List ℕ)
      → 3 ≤ length points
      → (simplify_loop r (2 * length points) points tolerance ((0, length points - 1) ∷ []) kept).0
        ≡ []
  simplify_loop_lem points tolerance kept h =
      simplify_loop-ends (2 * length points) points tolerance ((0, length points - 1) ∷ []) kept
        (omega (arith, h), tt) (omega (arith, h))

  select-first_point :
      (i : ℕ) (kept : List ℕ) (p : Point A) (ps : List (Point A))
      → is_used kept i ≡ true
      → first_point (select r i kept (p ∷ ps)) ≡ some p
  unfolding select
  select-first_point i kept p ps h = ground (arith, h)

  last_point-cons :
      (p q : Point A) (ps : List (Point A)) → last_point ps ≡ some q → last_point (p ∷ ps) ≡ some q
  unfolding last_point
  last_point-cons p q [] h = ground (arith, h)
  last_point-cons p q (x ∷ xs) h = h

  has_last : (p : Point A) (ps : List (Point A)) → (q : Point A) × (last_point (p ∷ ps) ≡ some q)
  unfolding last_point
  has_last p [] = (p, refl)
  has_last p (x ∷ xs) = has_last x xs

  select-last_point :
      (i : ℕ) (kept : List ℕ) (p : Point A) (ps : List (Point A))
      → is_used kept (i + length ps) ≡ true
      → last_point (select r i kept (p ∷ ps)) ≡ last_point (p ∷ ps)
  unfolding select last_point
  select-last_point i kept p [] h = ground (arith, h)
  select-last_point i kept p (q ∷ qs) h =
      let (z, e) = has_last q qs in
      let rest = select-last_point (i + 1) kept q qs (ground (arith, h)) in
      elim (Bool-cases (is_used kept i)) [
        | inl u ↦
            ground
              (arith, u, e, rest, last_point-cons p z (select r (i + 1) kept (q ∷ qs)) (rest ∙ e))
        | inr u ↦ ground (arith, u, e, rest)
      ]

  abbrev kept_of : List (Point A) → A → List ℕ
  kept_of points tolerance =
      (simplify_loop r (2 * length points) points tolerance ((0, length points - 1) ∷ [])
        (0 ∷ (length points - 1) ∷ [])).1

  kept_of-is_used :
      (points : List (Point A)) (tolerance : A) (j : ℕ)
      → is_used (0 ∷ (length points - 1) ∷ []) j ≡ true
      → is_used (kept_of points tolerance) j ≡ true
  kept_of-is_used points tolerance j h =
      simplify_loop-is_used (2 * length points) points tolerance ((0, length points - 1) ∷ [])
        (0 ∷ (length points - 1) ∷ []) j h

  last_point-rounded :
      (ps : List (Point A)) → last_point (map (rounded r) ps) ≡ rounded_end (last_point ps)
  unfolding last_point
  last_point-rounded [] = refl
  last_point-rounded (p ∷ []) = refl
  last_point-rounded (p ∷ q ∷ ps) = last_point-rounded (q ∷ ps)

  first_point-rounded :
      (ps : List (Point A)) → first_point (map (rounded r) ps) ≡ rounded_end (first_point ps)
  first_point-rounded [] = refl
  first_point-rounded (p ∷ ps) = refl

  -- A line of three points at least begins and ends where it did, up to the rounding of the numbers.
  pub simplify_line-ends :
      (points : List (Point A)) (tolerance : A)
      → 3 ≤ length points
      → (first_point (simplify_line r points tolerance) ≡ rounded_end (first_point points))
        × (last_point (simplify_line r points tolerance) ≡ rounded_end (last_point points))
  unfolding simplify_line
  simplify_line-ends [] tolerance h = ground (arith, h)
  simplify_line-ends (p ∷ ps) tolerance h =
      let k : List ℕ = kept_of (p ∷ ps) tolerance in
      let short : simplify_line r (p ∷ ps) tolerance ≡ map (rounded r) (select r 0 k (p ∷ ps)) =
        ground (arith, h) in
      let first : is_used k 0 ≡ true = kept_of-is_used (p ∷ ps) tolerance 0 refl in
      let last : is_used k (0 + length ps) ≡ true =
        kept_of-is_used (p ∷ ps) tolerance (0 + length ps) (ground arith) in
      (
        ap first_point short
            ∙ first_point-rounded (select r 0 k (p ∷ ps))
            ∙ ap rounded_end (select-first_point 0 k p ps first),
        ap last_point short
            ∙ last_point-rounded (select r 0 k (p ∷ ps))
            ∙ ap rounded_end (select-last_point 0 k p ps last),
      )
