-- ===== src/Cache/Reads.antt =====
-- What the methods of the cache return, and what can be read after them.
use brasil_lens_backend.Common.{
  ◌==◌, ◌∙◌, Distinct-append_one, ℕ, suc, ◌+◌, ◌-◌, ◌*◌, ◌<◌, ◌≤◌, ◌≡◌, List, [], ◌∷◌, ◌++◌, true,
  false, Option, none, some, HasEq, ==_iff, ==_refl, arith, length, lookup, set_item, del_item,
  Distinct, lookup-append, lookup-set_item, lookup-del_item, Distinct-set_item, Distinct-del_item,
  length-set_item-le, Option-cases, inl, inr, ltb, ◌⊎◌, or_default, if◌then◌else◌,
}
use brasil_lens_backend.Cache.{TtlCache, Entry, second, enabled, evict, move_to_end, get, set}
use brasil_lens_backend.Cache.Order.{
  absent-evict, lookup_last, evict-append_one, evict_of_length-le, lookup-evict,
  move_to_end-set_item, lookup-move_to_end, length-move_to_end,
}

-- The value that an entry still offers at an instant.
abbrev pub live {ℓ} : {V : Type ℓ} → ℕ → Option (Entry V) → Option V
live now none = none
live now (some x) = if ltb x.expires_at now then none else some x.value

-- The entry that a write stores, where `ttl` is the default.
abbrev pub stored {ℓ} : {V : Type ℓ} → ℕ → ℕ → V → Option ℕ → Entry V
stored ttl now v t = record { expires_at = now + or_default t ttl * second; value = v }

module _ {ℓ} {K V : Type ℓ} ⦃e : HasEq K⦄ where
  pub get-eq-live :
      (c : TtlCache K V) (now : ℕ) (k : K)
      → enabled c ≡ true
      → (get c now k).1 ≡ live now (lookup k c.entries)
  unfolding get
  get-eq-live c now k h = ground arith

  -- A read drops an expired entry, and changes nothing else that a lookup can find.
  pub lookup-get :
      (c : TtlCache K V) (now : ℕ) (k j : K)
      → Distinct c.entries
      → (lookup j (get c now k).0.entries ≡ lookup j c.entries)
        ⊎ ((lookup j (get c now k).0.entries ≡ none) × (live now (lookup j c.entries) ≡ none))
  unfolding get
  lookup-get c now k j d = elim (Option-cases (lookup k c.entries)) [
    | inl p ↦ rw (p, get) (ground arith)
    | inr (x, p) ↦
        ground (
          arith,
          p,
          ==_iff k j,
          lookup-move_to_end k j c.entries d,
          lookup-del_item k j c.entries d,
        )
  ]

  pub entries-set :
      (c : TtlCache K V) (now : ℕ) (k : K) (v : V) (t : Option ℕ)
      → enabled c ≡ true
      → 0 < or_default t c.ttl
      → (set c now k v t).entries
        ≡ evict c.max_entries (del_item k c.entries ++ (k, stored c.ttl now v t) ∷ [])
  unfolding set
  entries-set c now k v t h p =
      ground (arith, move_to_end-set_item k (stored c.ttl now v t) c.entries)

  max_entries-pos : (c : TtlCache K V) → enabled c ≡ true → 0 < c.max_entries
  unfolding enabled
  max_entries-pos c h = ground arith

  absent-del_item : (k : K) (m : List (K × Entry V)) → Distinct m → lookup k (del_item k m) ≡ none
  absent-del_item k m d = lookup-del_item k k m d ∙ rw (==_refl k)

  Distinct-stored :
      (c : TtlCache K V) (now : ℕ) (k : K) (v : V) (t : Option ℕ)
      → Distinct c.entries
      → Distinct (del_item k c.entries ++ (k, stored c.ttl now v t) ∷ [])
  Distinct-stored c now k v t d =
      Distinct-append_one k (stored c.ttl now v t) (del_item k c.entries)
        (Distinct-del_item k c.entries d) (absent-del_item k c.entries d)

  -- A write is found again under its key, whatever else is in the cache.
  pub lookup-set_self :
      (c : TtlCache K V) (now : ℕ) (k : K) (v : V) (t : Option ℕ)
      → Distinct c.entries
      → enabled c ≡ true
      → 0 < or_default t c.ttl
      → lookup k (set c now k v t).entries ≡ some (stored c.ttl now v t)
  lookup-set_self c now k v t d h p =
      let m = del_item k c.entries in
      let x : K × Entry V = (k, stored c.ttl now v t) in
      let n = c.max_entries - 1 in
      let pos = max_entries-pos c h in
      let e : c.max_entries ≡ suc n = omega arith in
      rw (entries-set c now k v t h p, e, evict-append_one n m x)
        (lookup_last k (stored c.ttl now v t) (evict n m)
          (absent-evict n k m (Distinct-del_item k c.entries d) (absent-del_item k c.entries d)))

  -- Under another key a write leaves what was there, or evicts it.
  pub lookup-set_ne :
      (c : TtlCache K V) (now : ℕ) (k j : K) (v : V) (t : Option ℕ) (x : Entry V)
      → Distinct c.entries
      → enabled c ≡ true
      → 0 < or_default t c.ttl
      → (k == j) ≡ false
      → lookup j (set c now k v t).entries ≡ some x
      → lookup j c.entries ≡ some x
  unfolding lookup
  lookup-set_ne c now k j v t x d h p ne f =
      let m = del_item k c.entries in
      let y : K × Entry V = (k, stored c.ttl now v t) in
      let g =
        lookup-evict c.max_entries j (m ++ y ∷ []) x (Distinct-stored c now k v t d)
          (rw (entries-set c now k v t h p) at f) in
      ground (arith, lookup-append j m (y ∷ []), lookup-del_item k j c.entries d)

  -- Where what is stored fits, nothing is evicted.
  pub lookup-set_fits :
      (c : TtlCache K V) (now : ℕ) (k j : K) (v : V) (t : Option ℕ)
      → Distinct c.entries
      → enabled c ≡ true
      → 0 < or_default t c.ttl
      → length (set_item k (stored c.ttl now v t) c.entries) ≤ c.max_entries
      → lookup j (set c now k v t).entries
        ≡ (if k == j then some (stored c.ttl now v t) else lookup j c.entries)
  unfolding set
  lookup-set_fits c now k j v t d h p fits =
      let x = stored c.ttl now v t in
      let m = set_item k x c.entries in
      ground (
        arith,
        evict_of_length-le c.max_entries (move_to_end k m),
        length-move_to_end k m,
        lookup-move_to_end k j m (Distinct-set_item k x c.entries d),
        lookup-set_item k j x c.entries,
      )

  -- With room for one more entry nothing is evicted.
  pub lookup-set_room :
      (c : TtlCache K V) (now : ℕ) (k j : K) (v : V) (t : Option ℕ)
      → Distinct c.entries
      → enabled c ≡ true
      → 0 < or_default t c.ttl
      → length c.entries < c.max_entries
      → lookup j (set c now k v t).entries
        ≡ (if k == j then some (stored c.ttl now v t) else lookup j c.entries)
  lookup-set_room c now k j v t d h p room =
      lookup-set_fits c now k j v t d h p
        (omega (arith, length-set_item-le k (stored c.ttl now v t) c.entries))

  -- A write whose time to live is 0 is dropped, and what was there stays.
  pub set_zero :
      (c : TtlCache K V) (now : ℕ) (k : K) (v : V) (t : Option ℕ)
      → ltb 0 (or_default t c.ttl) ≡ false
      → set c now k v t ≡ c
  unfolding set
  set_zero c now k v t h = ground arith
