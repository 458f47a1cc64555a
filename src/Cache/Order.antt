-- ===== src/Cache/Order.antt =====
-- Facts on the entries of the cache: what `move_to_end` and `evict` keep, and in which order.
use brasil_lens_backend.Common.{
  none, ℕ, suc, ◌≤◌, ◌≡◌, refl, List, [], ◌∷◌, ◌++◌, some, HasEq, ==_iff, ==_refl, arith, length,
  length-append, lookup, set_item, del_item, Distinct, lookup-append, lookup-del_item,
  lookup-set_item, Distinct-del_item, Distinct-append_one, length-del_item, ◌∙◌, Option-cases, inl,
  inr,
}
use brasil_lens_backend.Cache.{Entry, evict, move_to_end}

module _ {ℓ} {K V : Type ℓ} where
  pub length-evict : (n : ℕ) (m : List (K × Entry V)) → length (evict n m) ≤ n
  unfolding evict
  length-evict n [] = omega arith
  length-evict n (x ∷ m) = ground (arith, length-evict n m)

  pub length-evict-le : (n : ℕ) (m : List (K × Entry V)) → length (evict n m) ≤ length m
  unfolding evict
  length-evict-le n [] = omega arith
  length-evict-le n (x ∷ m) = ground (arith, length-evict-le n m)

  pub evict_of_length-le : (n : ℕ) (m : List (K × Entry V)) → length m ≤ n → evict n m ≡ m
  unfolding evict
  evict_of_length-le n [] h = refl
  evict_of_length-le n (x ∷ m) h = ground arith

  -- The newest entry stays: the others make room for it.
  pub evict-append_one :
      (n : ℕ) (m : List (K × Entry V)) (x : K × Entry V)
      → evict (suc n) (m ++ x ∷ []) ≡ evict n m ++ x ∷ []
  unfolding evict
  evict-append_one n [] x = ground arith
  evict-append_one n (y ∷ m) x = ground (arith, evict-append_one n m x, length-append m (x ∷ []))

module _ {ℓ} {K V : Type ℓ} ⦃e : HasEq K⦄ where
  pub Distinct-evict : (n : ℕ) (m : List (K × Entry V)) → Distinct m → Distinct (evict n m)
  unfolding evict
  Distinct-evict n [] d = tt
  Distinct-evict n (x ∷ m) d = ground (arith, Distinct-evict n m d.1)

  -- What is left was there before, under the same key.
  pub lookup-evict :
      (n : ℕ) (k : K) (m : List (K × Entry V)) (x : Entry V)
      → Distinct m
      → lookup k (evict n m) ≡ some x
      → lookup k m ≡ some x
  unfolding evict lookup
  lookup-evict n k [] x d h = h
  lookup-evict n k ((j, y) ∷ m) x d h = ground (arith, ==_iff j k, lookup-evict n k m x d.1)

  pub del_item-set_item :
      (k : K) (x : Entry V) (m : List (K × Entry V)) → del_item k (set_item k x m) ≡ del_item k m
  unfolding del_item set_item
  del_item-set_item k x [] = ground (arith, ==_refl k)
  del_item-set_item k x ((j, y) ∷ m) = ground (arith, del_item-set_item k x m)

  pub move_to_end-set_item :
      (k : K) (x : Entry V) (m : List (K × Entry V))
      → move_to_end k (set_item k x m) ≡ del_item k m ++ (k, x) ∷ []
  unfolding move_to_end
  move_to_end-set_item k x m =
      ground (arith, lookup-set_item k k x m, ==_refl k, del_item-set_item k x m)

  pub Distinct-move_to_end :
      (k : K) (m : List (K × Entry V)) → Distinct m → Distinct (move_to_end k m)
  unfolding move_to_end
  Distinct-move_to_end k m d = elim (Option-cases (lookup k m)) [
    | inl p ↦ rw (p, move_to_end) d
    | inr (x, p) ↦
        rw (p, move_to_end)
          (Distinct-append_one k x (del_item k m) (Distinct-del_item k m d)
            (lookup-del_item k k m d ∙ rw (==_refl k)))
  ]

  pub lookup-move_to_end :
      (k j : K) (m : List (K × Entry V)) → Distinct m → lookup j (move_to_end k m) ≡ lookup j m
  unfolding move_to_end lookup
  lookup-move_to_end k j m d = elim (Option-cases (lookup k m)) [
    | inl p ↦ rw (p, move_to_end)
    | inr (x, p) ↦
        rw (p, move_to_end)
          (ground (
            arith,
            ==_iff k j,
            lookup-append j (del_item k m) ((k, x) ∷ []),
            lookup-del_item k j m d,
          ))
  ]

  pub length-move_to_end : (k : K) (m : List (K × Entry V)) → length (move_to_end k m) ≡ length m
  unfolding move_to_end
  length-move_to_end k m = elim (Option-cases (lookup k m)) [
    | inl p ↦ rw (p, move_to_end)
    | inr (x, p) ↦
        rw (p, move_to_end)
          (omega (arith, length-append (del_item k m) ((k, x) ∷ []), length-del_item k m x p))
  ]

  pub absent-evict :
      (n : ℕ) (k : K) (m : List (K × Entry V))
      → Distinct m
      → lookup k m ≡ none
      → lookup k (evict n m) ≡ none
  absent-evict n k m d h = elim (Option-cases (lookup k (evict n m))) [
    | inl p ↦ p
    | inr (x, p) ↦ cc (h, lookup-evict n k m x d p)
  ]

  pub lookup_last :
      (k : K) (x : Entry V) (m : List (K × Entry V))
      → lookup k m ≡ none
      → lookup k (m ++ (k, x) ∷ []) ≡ some x
  unfolding lookup
  lookup_last k x m h = ground (arith, lookup-append k m ((k, x) ∷ []), ==_refl k)
