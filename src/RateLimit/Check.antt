-- ===== src/RateLimit/Check.antt =====
-- `check_auth_attempt`: whom it lets through, and what it leaves in the counters.
use brasil_lens_backend.Common.{
  ℕ, ◌+◌, ◌*◌, ◌≤◌, ◌≡◌, refl, Bool, false, Option, none, some, String, List, [], ◌∷◌, arith, leb,
  ltb, Bool-cases, inl, inr, or_default, if◌then◌else◌,
}
use brasil_lens_backend.Errors.{ok, raise}
use brasil_lens_backend.Cache
use brasil_lens_backend.Cache.{TtlCache, second}
use brasil_lens_backend.Cache.Room.{IsReady, peek, get-eq-peek, peek-get, IsReady-get}
use brasil_lens_backend.RateLimit.{
  AttemptKey, address, key_eq, Counter, Attempts, window_seconds, account_limit, ip_limit,
  rate_limited, scan, limits, account_key, email_key, check_auth_attempt,
}

-- The counter of a key at an instant: a fresh window where there is none.
abbrev pub counter : Attempts → ℕ → AttemptKey → Counter
counter c now key = or_default (peek c now key) (0, now + window_seconds * second)

-- The end of an e-mail's lock, 0 where there is none.
abbrev pub locked_until : (String → String) → Attempts → ℕ → String → ℕ
locked_until sha256 c now email = (or_default (peek c now (email_key sha256 email)) (0, 0)).1

-- The limit of the address, where one is known.
abbrev pub address_full : Attempts → ℕ → Option String → Bool
address_full c now none = false
address_full c now (some ip) = leb ip_limit (counter c now (address ip)).0

-- What the first loop yields, by the counters before it.
abbrev pub quota : Attempts → ℕ → List (AttemptKey × ℕ) → Option (List (AttemptKey × Counter))
quota c now [] = some []
quota c now ((key, limit) ∷ rest) =
    let x = counter c now key in
    if leb limit x.0
    then none
    else elim (quota c now rest) [ none ↦ none | some es ↦ some ((key, (x.0 + 1, x.1)) ∷ es) ]

pub quota_of_get :
    (n : ℕ) (c : Attempts) (now : ℕ) (k : AttemptKey) (ks : List (AttemptKey × ℕ))
    → IsReady n c
    → quota (Cache.get c now k).0 now ks ≡ quota c now ks
quota_of_get n c now k [] r = refl
quota_of_get n c now k ((key, limit) ∷ rest) r =
    ground (arith, peek-get n c now k now key r, quota_of_get n c now k rest r)

module _ (n : ℕ) (now : ℕ) where
  pub scan-eq-quota :
      (c : Attempts) (ks : List (AttemptKey × ℕ)) → IsReady n c → (scan c now ks).1 ≡ quota c now ks
  unfolding scan
  scan-eq-quota c [] r = refl
  scan-eq-quota c ((key, limit) ∷ rest) r = ground (
    arith,
    get-eq-peek n c now key r,
    scan-eq-quota (Cache.get c now key).0 rest (IsReady-get n c now key r),
    quota_of_get n c now key rest r,
  )

  pub IsReady-scan :
      (c : Attempts) (ks : List (AttemptKey × ℕ)) → IsReady n c → IsReady n (scan c now ks).0
  unfolding scan
  IsReady-scan c [] r = r
  IsReady-scan c ((key, limit) ∷ rest) r =
      let c' = (Cache.get c now key).0 in
      let r' = IsReady-get n c now key r in
      let found = or_default (Cache.get c now key).1 (0, now + window_seconds * second) in
      elim (Bool-cases (leb limit found.0)) [
        | inl p ↦ rw (p, scan) r'
        | inr p ↦ rw (p, scan) (IsReady-scan c' rest r')
      ]

  pub peek-scan :
      (c : Attempts) (ks : List (AttemptKey × ℕ)) (t : ℕ) (j : AttemptKey)
      → IsReady n c
      → now ≤ t
      → peek (scan c now ks).0 t j ≡ peek c t j
  unfolding scan
  peek-scan c [] t j r le = refl
  peek-scan c ((key, limit) ∷ rest) t j r le = ground (
    arith,
    peek-get n c now key t j r,
    peek-scan (Cache.get c now key).0 rest t j (IsReady-get n c now key r),
  )

module _ (sha256 : String → String) (c : Attempts) (now : ℕ) (email : String) where
  -- An attempt is refused exactly when the e-mail is locked at that instant, or the account and
  -- address have used up their attempts, or the address has; otherwise it is let through.
  pub check_auth_attempt_iff :
      (ip : Option String)
      → IsReady 0 c
      → (check_auth_attempt sha256 c now email ip).1 ≡ (
          if ltb now (locked_until sha256 c now email)
          then raise rate_limited
          else if leb account_limit (counter c now (account_key sha256 email ip)).0
          then raise rate_limited
          else if address_full c now ip
          then raise rate_limited
          else ok tt)
  unfolding check_auth_attempt limits
  check_auth_attempt_iff none r = grind (
    arith,
    get-eq-peek 0 c now (email_key sha256 email) r,
    scan-eq-quota 0 now (Cache.get c now (email_key sha256 email)).0 (limits sha256 email none)
        (IsReady-get 0 c now (email_key sha256 email) r),
    quota_of_get 0 c now (email_key sha256 email) (limits sha256 email none) r,
  )
  check_auth_attempt_iff (some ip) r = ground (
    arith,
    get-eq-peek 0 c now (email_key sha256 email) r,
    scan-eq-quota 0 now (Cache.get c now (email_key sha256 email)).0 (limits sha256 email (some ip))
        (IsReady-get 0 c now (email_key sha256 email) r),
    quota_of_get 0 c now (email_key sha256 email) (limits sha256 email (some ip)) r,
  )
