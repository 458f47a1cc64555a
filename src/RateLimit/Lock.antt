-- ===== src/RateLimit/Lock.antt =====
-- The progressive lock of an e-mail: `record_auth_failure`, and what it does to later attempts.
use Prim.Native.Nat.{min}
use brasil_lens_backend.Common.{
  ℕ, zero, suc, ◌+◌, ◌-◌, ◌*◌, ◌≤◌, ◌<◌, ◌≡◌, refl, Option, some, String, ◌==◌, ==_refl, arith, leb,
  or_default, if◌then◌else◌, nat_eq,
}
use brasil_lens_backend.Errors.{raise}
use brasil_lens_backend.Cache
use brasil_lens_backend.Cache.{second}
use brasil_lens_backend.Cache.Room.{
  IsReady, peek, get-eq-peek, peek-get, peek-set, IsReady-get, IsReady-set,
}
use brasil_lens_backend.RateLimit.{
  AttemptKey, key_eq, Attempts, email_key, lock_seconds, email_failure_ttl, rate_limited,
  check_auth_attempt, record_auth_failure,
}
use brasil_lens_backend.RateLimit.Check.{check_auth_attempt_iff}

-- From the ninth failure on the index is that of the last rung.
top : (n : ℕ) → lock_seconds (suc (suc (suc (suc (suc (suc (suc (suc (suc n))))))))) ≡ 3600
unfolding lock_seconds
top n =
    let m = suc (suc (suc (suc (suc (suc (suc (suc (suc n)))))))) in
    let e : min (m - 5) 4 - 1 ≡ 3 = omega arith in rw e (ground arith)

-- The ladder: no lock up to the fifth failure, one minute at the sixth, five at the seventh,
-- fifteen at the eighth, and an hour from the ninth on.
pub lock_seconds-ladder :
    (failures : ℕ)
    → lock_seconds failures ≡ (
        if leb failures 5
        then 0
        else if failures == 6
        then 60
        else if failures == 7
        then 300
        else if failures == 8
        then 900
        else 3600)
unfolding lock_seconds
lock_seconds-ladder zero = refl
lock_seconds-ladder (suc zero) = refl
lock_seconds-ladder (suc (suc zero)) = refl
lock_seconds-ladder (suc (suc (suc zero))) = refl
lock_seconds-ladder (suc (suc (suc (suc zero)))) = refl
lock_seconds-ladder (suc (suc (suc (suc (suc zero))))) = refl
lock_seconds-ladder (suc (suc (suc (suc (suc (suc zero)))))) = refl
lock_seconds-ladder (suc (suc (suc (suc (suc (suc (suc zero))))))) = refl
lock_seconds-ladder (suc (suc (suc (suc (suc (suc (suc (suc zero)))))))) = refl
lock_seconds-ladder (suc (suc (suc (suc (suc (suc (suc (suc (suc n))))))))) = ground (arith, top n)

pub lock_seconds-le : (failures : ℕ) → lock_seconds failures ≤ 3600
lock_seconds-le failures = ground (arith, lock_seconds-ladder failures)

module _ (sha256 : String → String) (c : Attempts) (now : ℕ) (email : String) where
  -- The failures counted so far.
  abbrev pub failures : ℕ
  failures = (or_default (peek c now (email_key sha256 email)) (0, 0)).0

  -- For a day a failure is counted once more, with the lock of its rung; no other counter changes.
  pub peek-record_auth_failure :
      (t : ℕ) (j : AttemptKey)
      → IsReady 1 c
      → now ≤ t
      → t ≤ now + email_failure_ttl * second
      → peek (record_auth_failure sha256 c now email) t j ≡ (
          if email_key sha256 email == j
          then some (failures + 1, now + lock_seconds (failures + 1) * second)
          else peek c t j)
  unfolding record_auth_failure
  peek-record_auth_failure t j r le day = ground (
    arith,
    get-eq-peek 1 c now (email_key sha256 email) r,
    peek-get 1 c now (email_key sha256 email) t j r le,
    peek-set 0 (Cache.get c now (email_key sha256 email)).0 now (email_key sha256 email)
        (failures + 1, now + lock_seconds (failures + 1) * second) email_failure_ttl t j
        (IsReady-get 1 c now (email_key sha256 email) r),
  )

  IsReady-record_auth_failure : IsReady 1 c → IsReady 0 (record_auth_failure sha256 c now email)
  unfolding record_auth_failure
  IsReady-record_auth_failure r =
      IsReady-set 0 (Cache.get c now (email_key sha256 email)).0 now (email_key sha256 email) _
        (some email_failure_ttl) (IsReady-get 1 c now (email_key sha256 email) r)

  -- Once the count passes the free failures, the e-mail is locked for the time of its rung: whatever
  -- the address, an attempt before the lock ends is refused.
  pub locked_after_failure :
      (t : ℕ) (ip : Option String)
      → IsReady 1 c
      → now ≤ t
      → t < now + lock_seconds (failures + 1) * second
      → (check_auth_attempt sha256 (record_auth_failure sha256 c now email) t email ip).1
        ≡ raise rate_limited
  locked_after_failure t ip r le end =
      let day : t ≤ now + email_failure_ttl * second =
        omega (arith, lock_seconds-le (failures + 1)) in
      let c' = record_auth_failure sha256 c now email in
      ground (
        arith,
        peek-record_auth_failure t (email_key sha256 email) r le day,
        ==_refl (email_key sha256 email),
        check_auth_attempt_iff sha256 c' t email ip (IsReady-record_auth_failure r),
      )
