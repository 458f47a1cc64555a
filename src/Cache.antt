-- ===== src/Cache.antt =====
-- app/core/cache.py: `TTLCache`, an `OrderedDict` with a time to live and a bound on its size.
-- Instants are microseconds of the monotonic clock; times to live are whole seconds, and one that
-- is not positive is 0. The clock is an argument, `now`, of the methods that read it.
mod Order
pub mod Bounds
pub mod Reads
pub mod Room
pub mod History
pub mod Fits
use brasil_lens_backend.Common.{
  ℕ, ◌+◌, ◌*◌, List, [], ◌∷◌, ◌++◌, Bool, ◌&&◌, not, or_default, Option, none, some, HasEq, length,
  ltb, leb, lookup, set_item, del_item, if◌then◌else◌,
}

abbrev pub second : ℕ
second = 1_000_000

pub record Entry {ℓ} (V : Type ℓ) : Type ℓ where
  pub expires_at : ℕ
  pub value : V

pub record TtlCache {ℓ} (K V : Type ℓ) : Type ℓ where
  pub ttl : ℕ
  pub max_entries : ℕ
  pub entries : List (K × Entry V)
  pub hits : ℕ
  pub misses : ℕ

pub record Stats : Type 0 where
  pub stored : ℕ
  pub hits : ℕ
  pub misses : ℕ

module _ {ℓ} {K V : Type ℓ} where
  unfoldable pub init : ℕ → ℕ → TtlCache K V
  init ttl_seconds max_entries = record {
    ttl = ttl_seconds;
    max_entries = max_entries;
    entries = [];
    hits = 0;
    misses = 0;
  }

  unfoldable pub enabled : TtlCache K V → Bool
  enabled c = ltb 0 c.ttl && ltb 0 c.max_entries

  -- while len(data) > max: data.popitem(last=False)
  unfoldable pub evict : ℕ → List (K × Entry V) → List (K × Entry V)
  evict max_entries [] = []
  evict max_entries (x ∷ m) =
      if ltb max_entries (length (x ∷ m)) then evict max_entries m else x ∷ m

  unfoldable pub clear : TtlCache K V → TtlCache K V
  clear c = record c { entries = [] }

  unfoldable pub stats : TtlCache K V → Stats
  stats c = record { stored = length c.entries; hits = c.hits; misses = c.misses }

module _ {ℓ} {K V : Type ℓ} ⦃e : HasEq K⦄ where
  -- data.move_to_end(key), for a key that is there
  unfoldable pub move_to_end : K → List (K × Entry V) → List (K × Entry V)
  move_to_end k m = elim (lookup k m) [ none ↦ m | some x ↦ del_item k m ++ (k, x) ∷ [] ]

  unfoldable pub get : TtlCache K V → ℕ → K → TtlCache K V × Option V
  get c now key = if not (enabled c) then (c, none) else elim (lookup key c.entries) [
    | none ↦ (record c { misses = c.misses + 1 }, none)
    | some x ↦
        if ltb x.expires_at now
        then (record c { entries = del_item key c.entries; misses = c.misses + 1 }, none)
        else (record c { entries = move_to_end key c.entries; hits = c.hits + 1 }, some x.value)
  ]

  -- `ttl_seconds` is `none` where the caller leaves the default
  unfoldable pub set : TtlCache K V → ℕ → K → V → Option ℕ → TtlCache K V
  set c now key value ttl_seconds =
      if not (enabled c)
      then c
      else let ttl = or_default ttl_seconds c.ttl in
        if leb ttl 0
        then c
        else let stored =
            set_item key (record { expires_at = now + ttl * second; value = value }) c.entries in
          record c { entries = evict c.max_entries (move_to_end key stored) }
