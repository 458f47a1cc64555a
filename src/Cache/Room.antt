-- ===== src/Cache/Room.antt =====
-- The cache where it has room: what a client that stores a few entries may rely on.
use brasil_lens_backend.Common.{
  ℕ, suc, ◌+◌, ◌≤◌, ◌<◌, ◌≡◌, ◌∙◌, true, Option, some, HasEq, ◌==◌, arith, length, lookup,
  if◌then◌else◌,
}
use brasil_lens_backend.Cache.{TtlCache, init, enabled, get, set}
use brasil_lens_backend.Cache.Bounds.{
  IsValid, read, write, step, step_config, enabled-step, get-IsValid, set-IsValid, length-get-le,
  length-set-le,
}
use brasil_lens_backend.Cache.Reads.{live, get-eq-live, lookup-get, stored, lookup-set_room}

module _ {ℓ} {K V : Type ℓ} ⦃e : HasEq K⦄ where
  -- What a read at an instant would return.
  abbrev pub peek : TtlCache K V → ℕ → K → Option V
  peek c t j = live t (lookup j c.entries)

  -- The cache is enabled and sound, and `n` more entries fit.
  pub record IsReady (n : ℕ) (c : TtlCache K V) : Type ℓ where
    pub valid : IsValid c
    pub on : enabled c ≡ true
    pub room : length c.entries + n ≤ c.max_entries

  pub get-eq-peek :
      (n : ℕ) (c : TtlCache K V) (now : ℕ) (k : K) → IsReady n c → (get c now k).1 ≡ peek c now k
  get-eq-peek n c now k r = get-eq-live c now k r.on

  -- Reads do not show.
  pub peek-get :
      (n : ℕ) (c : TtlCache K V) (now : ℕ) (k : K) (t : ℕ) (j : K)
      → IsReady n c
      → now ≤ t
      → peek (get c now k).0 t j ≡ peek c t j
  peek-get n c now k t j r le = ground (arith, lookup-get c now k j r.valid.distinct)

  pub IsReady-get :
      (n : ℕ) (c : TtlCache K V) (now : ℕ) (k : K) → IsReady n c → IsReady n (get c now k).0
  unfolding step
  IsReady-get n c now k r = record {
    valid = get-IsValid c now k r.valid;
    on = enabled-step c (read now k) ∙ r.on;
    room = omega (arith, r.room, length-get-le c now k, (step_config c (read now k)).1);
  }

  pub peek-set :
      (n : ℕ) (c : TtlCache K V) (now : ℕ) (k : K) (v : V) (l t : ℕ) (j : K)
      → IsReady (suc n) c
      → 0 < l
      → peek (set c now k v (some l)) t j
        ≡ (if k == j then live t (some (stored c.ttl now v (some l))) else peek c t j)
  peek-set n c now k v l t j r pos =
      ground (arith, r.room, lookup-set_room c now k j v (some l) r.valid.distinct r.on pos)

  pub IsReady-set :
      (n : ℕ) (c : TtlCache K V) (now : ℕ) (k : K) (v : V) (l : Option ℕ)
      → IsReady (suc n) c
      → IsReady n (set c now k v l)
  unfolding step
  IsReady-set n c now k v l r = record {
    valid = set-IsValid c now k v l r.valid;
    on = enabled-step c (write now k v l) ∙ r.on;
    room = omega (arith, r.room, length-set-le c now k v l, (step_config c (write now k v l)).1);
  }

  -- Room for more is room for fewer.
  pub IsReady-le : (m n : ℕ) (c : TtlCache K V) → m ≤ n → IsReady n c → IsReady m c
  IsReady-le m n c le r = record { valid = r.valid; on = r.on; room = omega (arith, r.room) }

  pub IsReady-init :
      (n ttl max_entries : ℕ)
      → 0 < ttl
      → 0 < max_entries
      → n ≤ max_entries
      → IsReady n (init {K = K} {V = V} ttl max_entries)
  unfolding init enabled
  IsReady-init n ttl max_entries p q le = record {
    valid = record { bounded = omega arith; distinct = tt };
    on = ground arith;
    room = omega arith;
  }
