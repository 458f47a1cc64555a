-- ===== src/Cache/Fits.antt =====
-- The cache against the ideal one of Cache.History where the keys fit: what any read returns.
use brasil_lens_backend.Common.{
  ◌∙◌, subst, Bool-cases, ltb→lt, ℕ, ◌≤◌, ◌<◌, ◌≡◌, refl, List, [], ◌∷◌, Option, none, some, true,
  HasEq, ◌==◌, ==_iff, ==_refl, arith, length, lookup, set_item, del_item, inl, inr, ltb,
  or_default, any_of, is_some, Distinct, Distinct-del_item, Distinct-set_item, lookup-del_item,
  lookup-set_item, del_item_absent, length-del_item, Option-cases, if◌then◌else◌,
}
use brasil_lens_backend.Cache.{TtlCache, Entry, init, enabled, get, set, clear}
use brasil_lens_backend.Cache.Bounds.{
  Call, read, write, wipe, step, run, IsValid, step_config, get-IsValid, set-IsValid, enabled-step,
}
use brasil_lens_backend.Cache.Reads.{
  live, get-eq-live, lookup-get, stored, lookup-set_fits, set_zero,
}
use brasil_lens_backend.Cache.History.{note, ideal, enabled-run}

module _ {ℓ} {K V : Type ℓ} ⦃e : HasEq K⦄ where
  -- Where every key of a table is in a list, the table has no more entries than the list.
  length-keys-le :
      (ks : List K) (m : List (K × V))
      → Distinct m
      → ((j : K) → is_some (lookup j m) ≡ true → any_of (λ i. i == j) ks ≡ true)
      → length m ≤ length ks
  unfolding lookup
  length-keys-le [] [] d f = omega arith
  length-keys-le [] ((i, w) ∷ m) d f = ground (arith, f i, ==_refl i)
  length-keys-le (k ∷ ks) m d f =
      let rest =
        length-keys-le ks (del_item k m) (Distinct-del_item k m d)
          (λ j h. ground (arith, h, lookup-del_item k j m d, f j)) in
      elim (Option-cases (lookup k m)) [
        | inl p ↦ ground (arith, rest, del_item_absent k m p)
        | inr (v, p) ↦ ground (arith, rest, length-del_item k m v p)
      ]

module _ {ℓ} {K V : Type ℓ} ⦃e : HasEq K⦄ where
  -- Every key that the calls write is in a list.
  abbrev pub WritesIn : List K → List (Call K V) → Type 0
  WritesIn ks [] = Unit
  WritesIn ks (write now k v t ∷ calls) = (any_of (λ i. i == k) ks ≡ true) × WritesIn ks calls
  WritesIn ks (_ ∷ calls) = WritesIn ks calls

  -- Calls whose instants never go back, from one instant to another.
  abbrev pub InOrder : ℕ → List (Call K V) → ℕ → Type 0
  InOrder s [] t = s ≤ t
  InOrder s (read now k ∷ calls) t = (s ≤ now) × InOrder now calls t
  InOrder s (write now k v l ∷ calls) t = (s ≤ now) × InOrder now calls t
  InOrder s (wipe ∷ calls) t = InOrder s calls t

  -- From `now` on, the cache reads as the ideal map does, and its keys are in a list.
  record Tracks (ks : List K) (now : ℕ) (c : TtlCache K V) (h : K → Option (Entry V)) : Type ℓ where
    valid : IsValid c
    reads_alike : (t : ℕ) (j : K) → now ≤ t → live t (lookup j c.entries) ≡ live t (h j)
    keys : (j : K) → is_some (lookup j c.entries) ≡ true → any_of (λ i. i == j) ks ≡ true

  Tracks-read :
      (ks : List K) (s now : ℕ) (c : TtlCache K V) (h : K → Option (Entry V)) (k : K)
      → s ≤ now
      → Tracks ks s c h
      → Tracks ks now (get c now k).0 h
  Tracks-read ks s now c h k le a = record {
    valid = get-IsValid c now k a.valid;
    reads_alike = λ t j m. ground (arith, lookup-get c now k j a.valid.distinct, a.reads_alike t j);
    keys = λ j p. ground (arith, p, lookup-get c now k j a.valid.distinct, a.keys j);
  }

  -- What a write would store fits, where the list of keys does.
  fits :
      (ks : List K) (s : ℕ) (c : TtlCache K V) (h : K → Option (Entry V)) (k : K) (x : Entry V)
      → length ks ≤ c.max_entries
      → any_of (λ i. i == k) ks ≡ true
      → Tracks ks s c h
      → length (set_item k x c.entries) ≤ c.max_entries
  fits ks s c h k x room among a =
      let le =
        length-keys-le ks (set_item k x c.entries)
          (Distinct-set_item k x c.entries a.valid.distinct)
          (λ j p. elim (Bool-cases (k == j)) [
            | inl q ↦ subst (λ y. any_of (λ i. i == y) ks ≡ true) ((==_iff k j).0 q) among
            | inr q ↦ ground (arith, p, q, lookup-set_item k j x c.entries, a.keys j)
          ]) in
      omega (arith, le, room)

  Tracks-write :
      (ks : List K) (s now : ℕ) (c : TtlCache K V) (h : K → Option (Entry V)) (k : K) (v : V)
      (l : Option ℕ)
      → enabled c ≡ true
      → length ks ≤ c.max_entries
      → any_of (λ i. i == k) ks ≡ true
      → s ≤ now
      → Tracks ks s c h
      → Tracks ks now (set c now k v l) (note c.ttl h (write now k v l))
  unfolding note
  Tracks-write ks s now c h k v l on room among le a = record {
    valid = set-IsValid c now k v l a.valid;
    reads_alike = λ t j m. elim (Bool-cases (ltb 0 (or_default l c.ttl))) [
      | inr off ↦ rw (set_zero c now k v l off, off) (a.reads_alike t j (omega arith))
      | inl pos ↦ rw (pos, written j pos) (ground (arith, a.reads_alike t j))
    ];
    keys = λ j p. elim (Bool-cases (ltb 0 (or_default l c.ttl))) [
      | inr off ↦ a.keys j (rw (set_zero c now k v l off) at p)
      | inl pos ↦ elim (Bool-cases (k == j)) [
        | inl q ↦ subst (λ y. any_of (λ i. i == y) ks ≡ true) ((==_iff k j).0 q) among
        | inr q ↦ ground (arith, p, q, written j pos, a.keys j)
      ]
    ];
  }
    where
      written :
          (j : K)
          → ltb 0 (or_default l c.ttl) ≡ true
          → lookup j (set c now k v l).entries
            ≡ (if k == j then some (stored c.ttl now v l) else lookup j c.entries)
      written j pos =
          lookup-set_fits c now k j v l a.valid.distinct on (ltb→lt _ _ pos)
            (fits ks s c h k (stored c.ttl now v l) room among a)

  Tracks-wipe :
      (ks : List K) (s : ℕ) (c : TtlCache K V) (h : K → Option (Entry V))
      → Tracks ks s c h
      → Tracks ks s (clear c) (note c.ttl h wipe)
  unfolding note clear lookup
  Tracks-wipe ks s c h a = record {
    valid = record { bounded = omega arith; distinct = tt };
    reads_alike = λ t j m. refl;
    keys = λ j p. ground (arith, p);
  }

  run-Tracks :
      (ks : List K) (ttl s t : ℕ) (c : TtlCache K V) (h : K → Option (Entry V))
      (calls : List (Call K V))
      → c.ttl ≡ ttl
      → enabled c ≡ true
      → InOrder s calls t
      → length ks ≤ c.max_entries
      → WritesIn ks calls
      → Tracks ks s c h
      → Tracks ks t (run c calls) (ideal ttl h calls)
  unfolding run ideal step note
  run-Tracks ks d s t c h [] same on le room among a = record {
    valid = a.valid;
    reads_alike = λ u j m. a.reads_alike u j (omega arith);
    keys = a.keys;
  }
  run-Tracks ks d s t c h (read now k ∷ calls) same on le room among a =
      run-Tracks ks d now t (get c now k).0 h calls ((step_config c (read now k)).0 ∙ same)
        (enabled-step c (read now k) ∙ on) le.1 (omega (arith, (step_config c (read now k)).1))
        among (Tracks-read ks s now c h k le.0 a)
  run-Tracks ks d s t c h (write now k v l ∷ calls) same on le room among a =
      run-Tracks ks d now t (set c now k v l) (note d h (write now k v l)) calls
        ((step_config c (write now k v l)).0 ∙ same) (enabled-step c (write now k v l) ∙ on) le.1
        (omega (arith, (step_config c (write now k v l)).1)) among.1
        (subst (λ x. Tracks ks now (set c now k v l) (note x h (write now k v l))) same
          (Tracks-write ks s now c h k v l on room among.0 le.0 a))
  run-Tracks ks d s t c h (wipe ∷ calls) same on le room among a =
      run-Tracks ks d s t (clear c) (λ _. none) calls ((step_config c wipe).0 ∙ same)
        (enabled-step c wipe ∙ on) le (omega (arith, (step_config c wipe).1)) among
        (Tracks-wipe ks s c h a)

  init-Tracks :
      (ks : List K) (ttl max_entries : ℕ)
      → Tracks ks 0 (init {K = K} {V = V} ttl max_entries) (λ _. none)
  unfolding init lookup
  init-Tracks ks ttl max_entries = record {
    valid = record { bounded = omega arith; distinct = tt };
    reads_alike = λ t j m. refl;
    keys = λ j p. ground (arith, p);
  }

module _ {ℓ} {K V : Type ℓ} ⦃e : HasEq K⦄ (ttl max_entries : ℕ) (calls : List (Call K V)) where
  -- While the keys fit, reads agree with the map that forgets nothing: if an enabled cache has
  -- served any calls in the order of their instants, every key that they write being among at most
  -- `max_entries` keys, then a read at a later instant returns the last write under its key if that
  -- is live, and nothing otherwise.
  pub get-run-eq-ideal :
      (ks : List K) (now : ℕ) (k : K)
      → 0 < ttl
      → 0 < max_entries
      → length ks ≤ max_entries
      → WritesIn ks calls
      → InOrder 0 calls now
      → (get (run (init ttl max_entries) calls) now k).1 ≡ live now (ideal ttl (λ _. none) calls k)
  unfolding init enabled
  get-run-eq-ideal ks now k p q room among le =
      let c : TtlCache K V = init ttl max_entries in
      let on : enabled c ≡ true = ground arith in
      let a : Tracks ks now (run c calls) (ideal ttl (λ _. none) calls) =
        run-Tracks ks ttl 0 now c (λ _. none) calls refl on le room among
          (init-Tracks ks ttl max_entries) in
      get-eq-live (run c calls) now k (enabled-run c calls ∙ on) ∙ a.reads_alike now k (omega arith)
