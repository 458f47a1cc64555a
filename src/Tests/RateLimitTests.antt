-- ===== src/Tests/RateLimitTests.antt =====
-- app/core/auth.py at concrete inputs. The digest is the identity.
use brasil_lens_backend.Common.{
  ℕ, ◌*◌, ◌≤◌, ◌≡◌, refl, String, string_eq, option_eq, List, [], ◌∷◌, none, some, lookup, set_item,
  del_item, nat_eq, arith, if◌then◌else◌, leb, ltb,
}
use brasil_lens_backend.Errors.{ok, raise}
use brasil_lens_backend.Cache
use brasil_lens_backend.Cache.{second}
use brasil_lens_backend.Cache.Room.{IsReady, IsReady-init, peek}
use brasil_lens_backend.RateLimit.{
  key_eq, account, email_fail, Attempts, attempts_init, account_key, account_limit, rate_limited,
  check_auth_attempt, record_auth_failure, clear_auth_attempts,
}
use brasil_lens_backend.RateLimit.Check.{
  counter, locked_until, address_full, check_auth_attempt_iff,
}
use brasil_lens_backend.RateLimit.Counting.{late_attempt-prolongs}
use brasil_lens_backend.RateLimit.Window.{
  Event, attempted, failed, succeeded, let_through, let_through-le-account_limit,
}
use brasil_lens_backend.RateLimit.Lock.{locked_after_failure}

program : Unit {0}
unfolding Cache.init Cache.enabled Cache.evict Cache.move_to_end Cache.get Cache.set lookup set_item
    del_item check_auth_attempt record_auth_failure clear_auth_attempts let_through
program = tt

abbrev digest : String → String
digest s = s

abbrev ana : String
ana = "ana@example.org"

-- Eleven attempts of one account and address within a window, with others between them.
abbrev burst : List Event
burst =
    attempted 1 ana (some "10.0.0.1")
    ∷ attempted 2 ana (some "10.0.0.1")
    ∷ failed 2 ana
    ∷ attempted 3 ana (some "10.0.0.1")
    ∷ attempted 4 ana (some "10.0.0.1")
    ∷ attempted 4 ana (some "10.0.0.2")
    ∷ attempted 5 ana (some "10.0.0.1")
    ∷ attempted 6 ana (some "10.0.0.1")
    ∷ succeeded 6 "bia@example.org" (some "10.0.0.1")
    ∷ attempted 7 ana (some "10.0.0.1")
    ∷ attempted 8 ana (some "10.0.0.1")
    ∷ attempted 9 ana (some "10.0.0.1")
    ∷ attempted 10 ana (some "10.0.0.1")
    ∷ attempted 11 ana (some "10.0.0.1")
    ∷ []

ready : (n : ℕ) → n ≤ 20_000 → IsReady n attempts_init
ready n le = IsReady-init n 300 20_000 (omega arith) (omega arith) le

check_auth_attempt_iff_example : (check_auth_attempt digest attempts_init 5 ana none).1 ≡ (
    if ltb 5 (locked_until digest attempts_init 5 ana)
    then raise rate_limited
    else if leb account_limit (counter attempts_init 5 (account_key digest ana none)).0
    then raise rate_limited
    else if address_full attempts_init 5 none
    then raise rate_limited
    else ok tt)
check_auth_attempt_iff_example =
    check_auth_attempt_iff digest attempts_init 5 ana none (ready 0 (omega arith))

let_through-le-account_limit_example :
    let_through digest ana (some "10.0.0.1") attempts_init burst ≤ account_limit
unfolding lookup Cache.init
let_through-le-account_limit_example =
    let_through-le-account_limit digest ana (some "10.0.0.1") attempts_init 0 burst
      (ready 28 (omega arith)) refl (omega arith) (refl, tt)

first_attempt : (check_auth_attempt digest attempts_init 5 ana none).1 ≡ ok tt
unfolding program
first_attempt = refl

-- Three attempts, whose window ended half a second ago.
abbrev ending : Attempts
ending = record attempts_init {
  entries =
      (account ana none, record { expires_at = 301 * second; value = (3, 300 * second) }) ∷ [];
}

ending-IsReady : IsReady 2 ending
unfolding Cache.enabled lookup Cache.init
ending-IsReady = record {
  valid = record { bounded = omega arith; distinct = (refl, tt) };
  on = refl;
  room = omega arith;
}

late_attempt-prolongs_example :
    peek
      (check_auth_attempt digest ending 300_500_000 ana none).0
      301_500_000
      (account_key digest ana none)
    ≡ some (4, 300_000_000)
unfolding program
late_attempt-prolongs_example =
    late_attempt-prolongs digest ending 300_500_000 ana none 301_500_000 3 300_000_000
      ending-IsReady refl (omega arith) refl (omega arith) (omega arith)

-- Five failures already.
abbrev failing : Attempts
failing = record attempts_init {
  entries = (email_fail ana, record { expires_at = 86_400 * second; value = (5, 0) }) ∷ [];
}

failing-IsReady : IsReady 1 failing
unfolding Cache.enabled lookup Cache.init
failing-IsReady = record {
  valid = record { bounded = omega arith; distinct = (refl, tt) };
  on = refl;
  room = omega arith;
}

locked_after_failure_example :
    (check_auth_attempt digest
      (record_auth_failure digest failing 10 ana)
      59_000_000
      ana
      (some "8.8.8.8")).1
    ≡ raise rate_limited
unfolding program
locked_after_failure_example =
    locked_after_failure digest failing 10 ana 59_000_000 (some "8.8.8.8") failing-IsReady
      (omega arith) (omega arith)
