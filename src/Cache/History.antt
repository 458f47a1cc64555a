-- ===== src/Cache/History.antt =====
-- The cache against an ideal one, a map from keys to the last write that forgets nothing: what a hit
-- returns.
use brasil_lens_backend.Common.{
  ◌∙◌, sym, subst, ap, Bool-cases, ltb→lt, ℕ, ◌≤◌, ◌<◌, ◌≡◌, refl, List, [], ◌∷◌, Option, none,
  some, true, HasEq, ◌==◌, ==_iff, arith, lookup, inl, inr, ltb, or_default, if◌then◌else◌,
}
use brasil_lens_backend.Cache.{TtlCache, Entry, init, enabled, get, set, clear}
use brasil_lens_backend.Cache.Bounds.{
  Call, read, write, wipe, step, run, IsValid, step-IsValid, step_config, enabled-step,
}
use brasil_lens_backend.Cache.Reads.{
  live, get-eq-live, lookup-get, stored, lookup-set_self, lookup-set_ne, set_zero,
}

module _ {ℓ} {K V : Type ℓ} ⦃e : HasEq K⦄ where
  -- The last write under each key since the last wipe; a write whose time to live is 0 is none.
  -- `ttl` is the default time to live.
  unfoldable pub note : ℕ → (K → Option (Entry V)) → Call K V → K → Option (Entry V)
  note ttl h (read now k) j = h j
  note ttl h (write now k v t) j =
      if ltb 0 (or_default t ttl) then (if k == j then some (stored ttl now v t) else h j) else h j
  note ttl h wipe j = none

  unfoldable pub ideal : ℕ → (K → Option (Entry V)) → List (Call K V) → K → Option (Entry V)
  ideal ttl h [] = h
  ideal ttl h (x ∷ calls) = ideal ttl (note ttl h x) calls

  -- What the cache holds is the last write.
  pub record Agrees (c : TtlCache K V) (h : K → Option (Entry V)) : Type ℓ where
    pub valid : IsValid c
    pub agrees : (j : K) (x : Entry V) → lookup j c.entries ≡ some x → h j ≡ some x

  note-write :
      (c : TtlCache K V) (h : K → Option (Entry V)) (now : ℕ) (k j : K) (v : V) (t : Option ℕ)
      (x : Entry V)
      → enabled c ≡ true
      → Agrees c h
      → lookup j (set c now k v t).entries ≡ some x
      → note c.ttl h (write now k v t) j ≡ some x
  unfolding note
  note-write c h now k j v t x on a p = elim (Bool-cases (ltb 0 (or_default t c.ttl))) [
    | inr off ↦
        rw (off)
          (a.agrees j x (rw (ap (λ (d : TtlCache K V). d.entries) (set_zero c now k v t off)) at p))
    | inl fit ↦
        let q = ltb→lt 0 (or_default t c.ttl) fit in
        elim (Bool-cases (k == j)) [
          | inl same ↦
              rw (fit, same)
                (cc (lookup-set_self c now k v t a.valid.distinct on q, (==_iff k j).0 same, p))
          | inr other ↦
              rw (fit, other)
                (a.agrees j x (lookup-set_ne c now k j v t x a.valid.distinct on q other p))
        ]
  ]

  step-Agrees :
      (c : TtlCache K V) (h : K → Option (Entry V)) (x : Call K V)
      → enabled c ≡ true
      → Agrees c h
      → Agrees (step c x) (note c.ttl h x)
  unfolding step note clear lookup
  step-Agrees c h (read now k) on a = record {
    valid = step-IsValid c (read now k) a.valid;
    agrees = λ j x p. ground (arith, lookup-get c now k j a.valid.distinct, a.agrees j x);
  }
  step-Agrees c h (write now k v t) on a = record {
    valid = step-IsValid c (write now k v t) a.valid;
    agrees = λ j x p. note-write c h now k j v t x on a p;
  }
  step-Agrees c h wipe on a = record { valid = step-IsValid c wipe a.valid; agrees = λ j x p. cc p }

  run-Agrees :
      (c : TtlCache K V) (h : K → Option (Entry V)) (calls : List (Call K V))
      → enabled c ≡ true
      → Agrees c h
      → Agrees (run c calls) (ideal c.ttl h calls)
  unfolding run ideal
  run-Agrees c h [] on a = a
  run-Agrees c h (x ∷ calls) on a =
      subst (λ d. Agrees (run (step c x) calls) (ideal d (note c.ttl h x) calls))
        (step_config c x).0
        (run-Agrees (step c x) (note c.ttl h x) calls (enabled-step c x ∙ on)
          (step-Agrees c h x on a))

  pub enabled-run : (c : TtlCache K V) (calls : List (Call K V)) → enabled (run c calls) ≡ enabled c
  unfolding run
  enabled-run c [] = refl
  enabled-run c (x ∷ calls) = enabled-run (step c x) calls ∙ enabled-step c x

module _ {ℓ} {V : Type ℓ} where
  live-some :
      (now : ℕ) (v : V) (h o : Option (Entry V))
      → ((x : Entry V) → o ≡ some x → h ≡ some x)
      → live now o ≡ some v
      → (x : Entry V) × (h ≡ some x) × (x.value ≡ v) × (now ≤ x.expires_at)
  live-some now v h none f p = cc p
  live-some now v h (some x) f p = (x, f x refl, ground arith, ground arith)

module _ {ℓ} {K V : Type ℓ} ⦃e : HasEq K⦄ (ttl max_entries : ℕ) where
  init-Agrees : Agrees (init {K = K} {V = V} ttl max_entries) (λ _. none)
  unfolding init lookup
  init-Agrees = record {
    valid = record { bounded = omega arith; distinct = tt };
    agrees = λ j x p. p;
  }

module _ {ℓ} {K V : Type ℓ} ⦃e : HasEq K⦄ (ttl max_entries : ℕ) (calls : List (Call K V)) where
  -- In an enabled cache, whatever calls it has served, a value that a read returns is the one of the
  -- last write under that key since the last `clear`, and it has not expired.
  pub hit_is_last_write :
      (now : ℕ) (k : K) (v : V)
      → 0 < ttl
      → 0 < max_entries
      → (get (run (init ttl max_entries) calls) now k).1 ≡ some v
      → (x : Entry V) × (ideal ttl (λ _. none) calls k ≡ some x)
        × (x.value ≡ v)
        × (now ≤ x.expires_at)
  unfolding init enabled
  hit_is_last_write now k v p q h =
      let c : TtlCache K V = init ttl max_entries in
      let on : enabled c ≡ true = ground arith in
      let a : Agrees (run c calls) (ideal ttl (λ _. none) calls) =
        run-Agrees c (λ _. none) calls on (init-Agrees ttl max_entries) in
      live-some now v (ideal ttl (λ _. none) calls k) (lookup k (run c calls).entries) (a.agrees k)
        (sym (get-eq-live (run c calls) now k (enabled-run c calls ∙ on)) ∙ h)
