-- ===== src/Common/Dict.antt =====
-- Python's insertion-ordered dict and `OrderedDict`, as an association list, oldest entry first.
use Prim.Native.Nat.{◌+◌, ◌≤◌}
use mathlib.Core.Path.{◌≡◌, refl}
use mathlib.Core.List.{List, [], ◌∷◌, ◌++◌}
use mathlib.Core.Option.{Option, none, some}
use native.Mathlib.Omega.{arith}
use brasil_lens_backend.Common.Tests.{if◌then◌else◌}
use brasil_lens_backend.Common.Lists.{length}
use brasil_lens_backend.Common.Equality.{HasEq, ◌==◌, ==_iff}

module _ {ℓ} {K V : Type ℓ} ⦃e : HasEq K⦄ where
  -- d.get(k)
  unfoldable pub lookup : K → List (K × V) → Option V
  lookup k [] = none
  lookup k ((j, v) ∷ m) = if j == k then some v else lookup k m

  -- d[k] = v: an old key keeps its place
  unfoldable pub set_item : K → V → List (K × V) → List (K × V)
  set_item k v [] = (k, v) ∷ []
  set_item k v ((j, w) ∷ m) = if j == k then (j, v) ∷ m else (j, w) ∷ set_item k v m

  -- del d[k], d.pop(k, None)
  unfoldable pub del_item : K → List (K × V) → List (K × V)
  del_item k [] = []
  del_item k ((j, w) ∷ m) = if j == k then m else (j, w) ∷ del_item k m

  -- d.setdefault(k, v) with the result dropped
  unfoldable pub set_default : K → V → List (K × V) → List (K × V)
  set_default k v m = elim (lookup k m) [ none ↦ set_item k v m | some _ ↦ m ]

  -- No key twice.
  abbrev pub Distinct : List (K × V) → Type ℓ
  Distinct [] = Unit
  Distinct ((k, v) ∷ m) = (lookup k m ≡ none) × Distinct m

  pub lookup-set_item :
      (k j : K) (v : V) (m : List (K × V))
      → lookup j (set_item k v m) ≡ (if k == j then some v else lookup j m)
  unfolding lookup set_item
  lookup-set_item k j v [] = refl
  lookup-set_item k j v ((i, w) ∷ m) =
      ground (arith, ==_iff k j, ==_iff i k, ==_iff i j, lookup-set_item k j v m)

  pub lookup-append :
      (j : K) (m n : List (K × V))
      → lookup j (m ++ n) ≡ elim (lookup j m) [ none ↦ lookup j n | some v ↦ some v ]
  unfolding lookup
  lookup-append j [] n = refl
  lookup-append j ((i, w) ∷ m) n = ground (arith, lookup-append j m n)

  pub lookup-del_item :
      (k j : K) (m : List (K × V))
      → Distinct m
      → lookup j (del_item k m) ≡ (if k == j then none else lookup j m)
  unfolding lookup del_item
  lookup-del_item k j [] d = ground arith
  lookup-del_item k j ((i, w) ∷ m) d =
      ground (arith, ==_iff k j, ==_iff i k, ==_iff i j, lookup-del_item k j m d.1)

  pub Distinct-set_item :
      (k : K) (v : V) (m : List (K × V)) → Distinct m → Distinct (set_item k v m)
  unfolding lookup set_item
  Distinct-set_item k v [] d = (refl, tt)
  Distinct-set_item k v ((i, w) ∷ m) d =
      ground (arith, ==_iff i k, ==_iff k i, lookup-set_item k i v m, Distinct-set_item k v m d.1)

  pub Distinct-del_item : (k : K) (m : List (K × V)) → Distinct m → Distinct (del_item k m)
  unfolding lookup del_item
  Distinct-del_item k [] d = tt
  Distinct-del_item k ((i, w) ∷ m) d =
      ground (arith, lookup-del_item k i m d.1, Distinct-del_item k m d.1)

  pub Distinct-append_one :
      (k : K) (v : V) (m : List (K × V))
      → Distinct m
      → lookup k m ≡ none
      → Distinct (m ++ (k, v) ∷ [])
  unfolding lookup
  Distinct-append_one k v [] d h = (refl, tt)
  Distinct-append_one k v ((i, w) ∷ m) d h = ground (
    arith,
    ==_iff i k,
    ==_iff k i,
    lookup-append i m ((k, v) ∷ []),
    Distinct-append_one k v m d.1,
  )

  pub del_item_absent : (k : K) (m : List (K × V)) → lookup k m ≡ none → del_item k m ≡ m
  unfolding lookup del_item
  del_item_absent k [] h = refl
  del_item_absent k ((i, w) ∷ m) h = ground (arith, del_item_absent k m)

  pub length-del_item :
      (k : K) (m : List (K × V)) (v : V)
      → lookup k m ≡ some v
      → length (del_item k m) + 1 ≡ length m
  unfolding lookup del_item
  length-del_item k [] v h = ground arith
  length-del_item k ((i, w) ∷ m) v h = ground (arith, length-del_item k m v)

  pub length-set_item-le :
      (k : K) (v : V) (m : List (K × V)) → length (set_item k v m) ≤ length m + 1
  unfolding set_item
  length-set_item-le k v [] = omega arith
  length-set_item-le k v ((i, w) ∷ m) = ground (arith, length-set_item-le k v m)

  pub length-set_item_old :
      (k : K) (v u : V) (m : List (K × V))
      → lookup k m ≡ some u
      → length (set_item k v m) ≡ length m
  unfolding lookup set_item
  length-set_item_old k v u [] h = ground arith
  length-set_item_old k v u ((i, w) ∷ m) h = ground (arith, length-set_item_old k v u m)
