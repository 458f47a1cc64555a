-- ===== src/Cache/Bounds.antt =====
-- The size of the cache, its keys and its counters, over any calls.
use brasil_lens_backend.Common.{
  length-set_item-le, suc, ◌<◌, ℕ, ◌+◌, ◌*◌, or_default, ◌≤◌, ◌≡◌, refl, List, [], ◌∷◌, true,
  Option, HasEq, arith, length, lookup, set_item, Distinct, Distinct-set_item, Distinct-del_item,
  length-del_item, Option-cases, inl, inr,
}
use brasil_lens_backend.Cache.{
  TtlCache, second, Entry, init, stats, enabled, move_to_end, get, set, clear,
}
use brasil_lens_backend.Cache.Order.{
  length-evict, length-evict-le, Distinct-evict, Distinct-move_to_end, length-move_to_end,
}

pub data Call {ℓ} (K V : Type ℓ) : Type ℓ where
  read : ℕ → K → Call K V
  write : ℕ → K → V → Option ℕ → Call K V
  wipe : Call K V

module _ {ℓ} {K V : Type ℓ} ⦃e : HasEq K⦄ where
  pub record IsValid (c : TtlCache K V) : Type ℓ where
    pub bounded : length c.entries ≤ c.max_entries
    pub distinct : Distinct c.entries

  unfoldable pub step : TtlCache K V → Call K V → TtlCache K V
  step c (read now k) = (get c now k).0
  step c (write now k v t) = set c now k v t
  step c wipe = clear c

  unfoldable pub run : TtlCache K V → List (Call K V) → TtlCache K V
  run c [] = c
  run c (x ∷ calls) = run (step c x) calls

  pub get-IsValid : (c : TtlCache K V) (now : ℕ) (k : K) → IsValid c → IsValid (get c now k).0
  unfolding get
  get-IsValid c now k h = elim (Option-cases (lookup k c.entries)) [
    | inl p ↦ rw (p, get) (ground arith)
    | inr (x, p) ↦
        rw (p, get)
          (ground (
            arith,
            Distinct-del_item k c.entries h.distinct,
            Distinct-move_to_end k c.entries h.distinct,
            length-move_to_end k c.entries,
            length-del_item k c.entries x p,
          ))
  ]

  pub set-IsValid :
      (c : TtlCache K V) (now : ℕ) (k : K) (v : V) (t : Option ℕ)
      → IsValid c
      → IsValid (set c now k v t)
  unfolding set
  set-IsValid c now k v t h =
      let x : Entry V = record { expires_at = now + or_default t c.ttl * second; value = v } in
      let stored : List (K × Entry V) = set_item k x c.entries in
      ground (
        arith,
        length-evict c.max_entries (move_to_end k stored),
        Distinct-evict c.max_entries (move_to_end k stored)
            (Distinct-move_to_end k stored (Distinct-set_item k x c.entries h.distinct)),
      )

  pub length-get-le :
      (c : TtlCache K V) (now : ℕ) (k : K) → length (get c now k).0.entries ≤ length c.entries
  unfolding get
  length-get-le c now k = elim (Option-cases (lookup k c.entries)) [
    | inl p ↦ rw (p, get) (ground arith)
    | inr (x, p) ↦
        ground (arith, p, length-move_to_end k c.entries, length-del_item k c.entries x p)
  ]

  pub length-set-le :
      (c : TtlCache K V) (now : ℕ) (k : K) (v : V) (t : Option ℕ)
      → length (set c now k v t).entries ≤ length c.entries + 1
  unfolding set
  length-set-le c now k v t =
      let x : Entry V = record { expires_at = now + or_default t c.ttl * second; value = v } in
      let stored : List (K × Entry V) = set_item k x c.entries in
      ground (
        arith,
        length-evict-le c.max_entries (move_to_end k stored),
        length-move_to_end k stored,
        length-set_item-le k x c.entries,
      )

  pub length-clear : (c : TtlCache K V) → length (clear c).entries ≡ 0
  unfolding clear
  length-clear c = refl

  clear-IsValid : (c : TtlCache K V) → IsValid c → IsValid (clear c)
  unfolding clear
  clear-IsValid c h = record { bounded = omega arith; distinct = tt }

  pub step-IsValid : (c : TtlCache K V) (x : Call K V) → IsValid c → IsValid (step c x)
  unfolding step
  step-IsValid c (read now k) h = get-IsValid c now k h
  step-IsValid c (write now k v t) h = set-IsValid c now k v t h
  step-IsValid c wipe h = clear-IsValid c h

  run-IsValid_from :
      (c : TtlCache K V) (calls : List (Call K V)) → IsValid c → IsValid (run c calls)
  unfolding run
  run-IsValid_from c [] h = h
  run-IsValid_from c (x ∷ calls) h = run-IsValid_from (step c x) calls (step-IsValid c x h)

  -- The methods never change the configuration.
  pub step_config :
      (c : TtlCache K V) (x : Call K V)
      → ((step c x).ttl ≡ c.ttl) × ((step c x).max_entries ≡ c.max_entries)
  unfolding step get set clear
  step_config c (read now k) = ground arith
  step_config c (write now k v t) = ground arith
  step_config c wipe = ground arith

  -- The reads of a list of calls.
  unfoldable pub reads : List (Call K V) → ℕ
  reads [] = 0
  reads (read now k ∷ calls) = suc (reads calls)
  reads (_ ∷ calls) = reads calls

  pub enabled-step : (c : TtlCache K V) (x : Call K V) → enabled (step c x) ≡ enabled c
  unfolding enabled
  enabled-step c x = rw ((step_config c x).0, (step_config c x).1)

  step_counts :
      (c : TtlCache K V) (x : Call K V)
      → enabled c ≡ true
      → (step c x).hits + (step c x).misses ≡ c.hits + c.misses + reads (x ∷ [])
  unfolding step get set clear reads
  step_counts c (read now k) h = ground arith
  step_counts c (write now k v t) h = ground arith
  step_counts c wipe h = ground arith

  run_counts_from :
      (c : TtlCache K V) (calls : List (Call K V))
      → enabled c ≡ true
      → (run c calls).hits + (run c calls).misses ≡ c.hits + c.misses + reads calls
  unfolding run reads
  run_counts_from c [] h = omega arith
  run_counts_from c (read now k ∷ calls) h = omega (
    arith,
    step_counts c (read now k) h,
    run_counts_from (step c (read now k)) calls (rw (enabled-step c (read now k)) h),
  )
  run_counts_from c (write now k v t ∷ calls) h = omega (
    arith,
    step_counts c (write now k v t) h,
    run_counts_from (step c (write now k v t)) calls (rw (enabled-step c (write now k v t)) h),
  )
  run_counts_from c (wipe ∷ calls) h = omega (
    arith,
    step_counts c wipe h,
    run_counts_from (step c wipe) calls (rw (enabled-step c wipe) h),
  )

module _ {ℓ} {K V : Type ℓ} ⦃e : HasEq K⦄ (ttl max_entries : ℕ) (calls : List (Call K V)) where
  -- Whatever calls a fresh cache serves, it holds at most `max_entries` entries, and no key twice.
  pub run-IsValid : IsValid (run (init ttl max_entries) calls)
  unfolding init
  run-IsValid = run-IsValid_from _ calls (record { bounded = omega arith; distinct = tt })

  -- If the cache is enabled, its hits and misses together are the number of the reads it served.
  pub run_counts :
      0 < ttl
      → 0 < max_entries
      → (stats (run (init ttl max_entries) calls)).hits
          + (stats (run (init ttl max_entries) calls)).misses
        ≡ reads calls
  unfolding init stats enabled
  run_counts h p = omega (arith, run_counts_from (init ttl max_entries) calls (ground arith))
