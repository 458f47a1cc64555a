-- ===== src/Tests/CacheTests.antt =====
-- app/core/cache.py at concrete inputs.
use brasil_lens_backend.Common.{
  ℕ, ◌+◌, ◌≤◌, ◌≡◌, refl, List, [], ◌∷◌, none, some, lookup, set_item, del_item, nat_eq, arith,
}
use brasil_lens_backend.Cache.{
  Entry, second, init, enabled, evict, move_to_end, get, set, clear, stats,
}
use brasil_lens_backend.Cache.Bounds.{Call, read, write, step, run, reads, IsValid, run-IsValid}
use brasil_lens_backend.Cache.Reads.{live}
use brasil_lens_backend.Cache.History.{note, ideal, hit_is_last_write}
use brasil_lens_backend.Cache.Fits.{get-run-eq-ideal}

program : Unit {0}
unfolding init enabled evict move_to_end get set clear stats step run reads note ideal lookup
    set_item del_item
program = tt

-- Three writes into room for two, with a read of the oldest before the third.
abbrev calls : List (Call ℕ ℕ)
calls =
    write 0 1 10 none
    ∷ write 0 2 20 (some 5)
    ∷ read (1 + second) 1
    ∷ write (2 + second) 3 30 none
    ∷ []

-- The read moved 1 to the end, so 2 was evicted.
oldest_is_evicted :
    ((get (run (init 60 2) calls) (3 + second) 1).1 ≡ some 10)
    × ((get (run (init 60 2) calls) (3 + second) 2).1 ≡ none)
    × ((get (run (init 60 2) calls) (3 + second) 3).1 ≡ some 30)
unfolding program
oldest_is_evicted = (refl, refl, refl)

-- With room for three, the short-lived entry is gone after five seconds.
expired_is_gone :
    ((get (run (init 60 3) calls) 5_000_000 2).1 ≡ some 20)
    × ((get (run (init 60 3) calls) 5_000_001 2).1 ≡ none)
unfolding program
expired_is_gone = (refl, refl)

run-IsValid_example : IsValid (run (init 60 2) calls)
run-IsValid_example = run-IsValid 60 2 calls

hit_is_last_write_example :
    (x : Entry ℕ) × (ideal 60 (λ _. none) calls 1 ≡ some x)
    × (x.value ≡ 10)
    × (3 + second ≤ x.expires_at)
hit_is_last_write_example =
    hit_is_last_write 60 2 calls (3 + second) 1 10 (omega arith) (omega arith) oldest_is_evicted.0

-- Four writes under two keys, in room for two.
abbrev rewrites : List (Call ℕ ℕ)
rewrites =
    write 0 1 10 none
    ∷ write 0 2 20 (some 5)
    ∷ write second 1 11 none
    ∷ write (2 + second) 2 21 (some 1)
    ∷ []

get-run-eq-ideal_example :
    (get (run (init 60 2) rewrites) 1_500_000 2).1
    ≡ live 1_500_000 (ideal 60 (λ _. none) rewrites 2)
get-run-eq-ideal_example =
    get-run-eq-ideal 60 2 rewrites (1 ∷ 2 ∷ []) 1_500_000 2 (omega arith) (omega arith)
      (omega arith) (refl, (refl, (refl, (refl, tt)))) (omega arith)
