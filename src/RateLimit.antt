-- ===== src/RateLimit.antt =====
-- app/core/auth.py: the counters that limit sign-in attempts, kept in one `TTLCache`, and the
-- progressive lock of an e-mail. The digest of an e-mail is a parameter, `sha256`. A key is the
-- constructor for its prefix; an address that is missing is `none`. One reading of the clock serves
-- a whole call.
pub mod Check
pub mod Stored
pub mod Counting
pub mod Others
pub mod Window
pub mod Lock
use brasil_lens_backend.Common.{
  ℕ, suc, ◌+◌, ◌-◌, ◌*◌, ◌/◌, ◌≡◌, ◌↔◌, refl, Bool, true, false, ◌&&◌, Option, none, some, String,
  List, [], ◌∷◌, HasEq, ◌==◌, ==_iff, string_eq, option_eq, arith, leb, ltb, or_default, length,
  if◌then◌else◌,
}
use Prim.Native.Nat.{min, max}
use brasil_lens_backend.Errors.{Result, ok, raise, DomainError, auth_rate_limited}
use brasil_lens_backend.Cache
use brasil_lens_backend.Cache.{TtlCache, second}

pub data AttemptKey : Type 0 where
  account : String → Option String → AttemptKey
  email_fail : String → AttemptKey
  address : String → AttemptKey

abbrev pub key_beq : AttemptKey → AttemptKey → Bool
key_beq (account d i) (account d' i') = d == d' && i == i'
key_beq (email_fail d) (email_fail d') = d == d'
key_beq (address i) (address i') = i == i'
key_beq _ _ = false

pub key_beq_iff : (a b : AttemptKey) → (key_beq a b ≡ true) ↔ (a ≡ b)
key_beq_iff (account d i) (account d' i') = ground (arith, ==_iff d d', ==_iff i i')
key_beq_iff (email_fail d) (email_fail d') = ground (arith, ==_iff d d')
key_beq_iff (address i) (address i') = ground (arith, ==_iff i i')
key_beq_iff a b = ground arith

instance abbrev pub key_eq : HasEq AttemptKey
key_eq = record { same = key_beq; same_iff = key_beq_iff }

-- A counter: how many attempts or failures, and the end of the window or of the lock.
abbrev pub Counter : Type 0
Counter = ℕ × ℕ

abbrev pub Attempts : Type 0
Attempts = TtlCache AttemptKey Counter

abbrev pub window_seconds : ℕ
window_seconds = 300

abbrev pub account_limit : ℕ
account_limit = 10

abbrev pub ip_limit : ℕ
ip_limit = 30

abbrev pub email_failure_ttl : ℕ
email_failure_ttl = 24 * 60 * 60

abbrev pub email_free_failures : ℕ
email_free_failures = 5

abbrev pub email_lock_ladder : List ℕ
email_lock_ladder = 60 ∷ 300 ∷ 900 ∷ 3600 ∷ []

abbrev pub rate_limited : DomainError
rate_limited = auth_rate_limited "Muitas tentativas de acesso. Tente novamente mais tarde."

abbrev pub attempts_init : Attempts
attempts_init = Cache.init window_seconds 20_000

-- The index of a tuple, 0 past its end, which no call reaches.
abbrev pub nth : List ℕ → ℕ → ℕ
nth [] i = 0
nth (x ∷ xs) ℕ.zero = x
nth (x ∷ xs) (suc i) = nth xs i

-- math.ceil(until - now)
unfoldable pub ceil_seconds : ℕ → ℕ → ℕ
ceil_seconds until now = (until - now + (second - 1)) / second

-- The seconds of lock that a failure count brings.
unfoldable pub lock_seconds : ℕ → ℕ
lock_seconds failures =
    let over = failures - email_free_failures in
    if ltb 0 over then nth email_lock_ladder (min over (length email_lock_ladder) - 1) else 0

module _ (sha256 : String → String) where
  abbrev pub account_key : String → Option String → AttemptKey
  account_key email ip = account (sha256 email) ip

  abbrev pub email_key : String → AttemptKey
  email_key email = email_fail (sha256 email)

  unfoldable pub limits : String → Option String → List (AttemptKey × ℕ)
  limits email none = (account_key email none, account_limit) ∷ []
  limits email (some ip) =
      (account_key email (some ip), account_limit) ∷ (address ip, ip_limit) ∷ []

-- The first loop of `check_auth_attempt`: `none` where a limit is reached.
unfoldable pub scan :
    Attempts → ℕ → List (AttemptKey × ℕ) → Attempts × Option (List (AttemptKey × Counter))
scan c now [] = (c, some [])
scan c now ((key, limit) ∷ rest) =
    let (c', found) = Cache.get c now key in
    let (attempts, until) = or_default found (0, now + window_seconds * second) in
    let (c'', entries) = scan c' now rest in
    if leb limit attempts
    then (c', none)
    else (c'', elim entries [ none ↦ none | some es ↦ some ((key, (attempts + 1, until)) ∷ es) ])

-- The second loop: the time to live runs to the end of the window.
unfoldable pub store : Attempts → ℕ → List (AttemptKey × Counter) → Attempts
store c now [] = c
store c now ((key, (attempts, until)) ∷ rest) =
    store (Cache.set c now key (attempts, until) (some (max 1 (ceil_seconds until now)))) now rest

module _ (sha256 : String → String) where
  unfoldable pub check_auth_attempt :
      Attempts → ℕ → String → Option String → Attempts × Result (Unit {0})
  unfolding scan store limits
  check_auth_attempt c now email ip =
      let (c', found) = Cache.get c now (email_key sha256 email) in
      let locked_until = (or_default found (0, 0)).1 in
      let (c'', entries) = scan c' now (limits sha256 email ip) in
      if ltb now locked_until
      then (c', raise rate_limited)
      else elim entries [ none ↦ (c'', raise rate_limited) | some es ↦ (store c'' now es, ok tt) ]

  unfoldable pub record_auth_failure : Attempts → ℕ → String → Attempts
  unfolding lock_seconds
  record_auth_failure c now email =
      let (c', found) = Cache.get c now (email_key sha256 email) in
      let failures = (or_default found (0, 0)).0 + 1 in
      Cache.set c' now (email_key sha256 email) (failures, now + lock_seconds failures * second)
        (some email_failure_ttl)

  unfoldable pub clear_auth_attempts : Attempts → ℕ → String → Option String → Attempts
  clear_auth_attempts c now email ip =
      Cache.set
        (Cache.set c now (account_key sha256 email ip) (0, now + window_seconds * second) none) now
        (email_key sha256 email) (0, 0) (some 1)

unfoldable pub reset_state : Attempts → Attempts
reset_state = Cache.clear
