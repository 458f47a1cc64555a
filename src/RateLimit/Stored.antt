-- ===== src/RateLimit/Stored.antt =====
-- app/core/auth.py: what the writing of the counters in `check_auth_attempt` leaves of each of them.
use Prim.Native.Nat.{max}
use brasil_lens_backend.Common.{
  ℕ, suc, ◌+◌, ◌*◌, ◌≤◌, ◌<◌, ◌≡◌, ◌∙◌, refl, false, Option, none, some, String, List, [], ◌∷◌,
  ◌==◌, ==_refl, arith, if◌then◌else◌, length, All, Option-cases, inl, inr,
}
use brasil_lens_backend.Cache
use brasil_lens_backend.Cache.{TtlCache, second}
use brasil_lens_backend.Cache.Room.{IsReady, peek, peek-set, IsReady-set, IsReady-le}
use brasil_lens_backend.RateLimit.{
  AttemptKey, email_fail, address, key_eq, Counter, Attempts, store, limits, account_key,
  ceil_seconds,
}
use brasil_lens_backend.RateLimit.Check.{counter, quota}

-- The time to live of a stored counter reaches the end of its window.
abbrev pub lifetime : ℕ → ℕ → ℕ
lifetime until now = max 1 (ceil_seconds until now)

pub lifetime_reaches : (until now : ℕ) → until ≤ now + lifetime until now * second
unfolding ceil_seconds
lifetime_reaches until now = omega arith

pub lifetime_pos : (until now : ℕ) → 0 < lifetime until now
lifetime_pos until now = omega arith

pub store_one :
    (n : ℕ) (c : Attempts) (now t : ℕ) (k j : AttemptKey) (x : Counter)
    → IsReady (suc n) c
    → t ≤ now + lifetime x.1 now * second
    → peek (store c now ((k, x) ∷ [])) t j ≡ (if k == j then some x else peek c t j)
unfolding store
store_one n c now t k j x r le =
    ground (arith, peek-set n c now k x (lifetime x.1 now) t j r (lifetime_pos x.1 now))

pub store_two :
    (n : ℕ) (c : Attempts) (now t : ℕ) (k l : AttemptKey) (x y : Counter)
    → IsReady (suc (suc n)) c
    → (l == k) ≡ false
    → t ≤ now + lifetime x.1 now * second
    → peek (store c now ((k, x) ∷ (l, y) ∷ [])) t k ≡ some x
unfolding store
store_two n c now t k l x y r ne le = ground (
  arith,
  peek-set (suc n) c now k x (lifetime x.1 now) t k r (lifetime_pos x.1 now),
  peek-set n (Cache.set c now k x (some (lifetime x.1 now))) now l y (lifetime y.1 now) t k
      (IsReady-set (suc n) c now k x (some (lifetime x.1 now)) r) (lifetime_pos y.1 now),
  ==_refl k,
)

pub IsReady-store :
    (n : ℕ) (c : Attempts) (now : ℕ) (es : List (AttemptKey × Counter))
    → IsReady (n + length es) c
    → IsReady n (store c now es)
unfolding store
IsReady-store n c now [] r = IsReady-le n (n + 0) c (omega arith) r
IsReady-store n c now ((k, x) ∷ es) r =
    let l = lifetime x.1 now in
    IsReady-store n (Cache.set c now k x (some l)) now es (
      IsReady-set (n + length es) c now k x (some l)
        (IsReady-le (suc (n + length es)) (n + suc (length es)) c (omega arith) r))

pub length-quota :
    (c : Attempts) (now : ℕ) (ks : List (AttemptKey × ℕ)) (es : List (AttemptKey × Counter))
    → quota c now ks ≡ some es
    → length es ≡ length ks
length-quota c now [] es h = ground arith
length-quota c now ((key, limit) ∷ rest) es h = elim (Option-cases (quota c now rest)) [
  | inl p ↦ ground arith
  | inr (fs, p) ↦ ground (arith, length-quota c now rest fs p)
]

pub length-limits :
    (sha256 : String → String) (email : String) (ip : Option String)
    → length (limits sha256 email ip) ≤ 2
unfolding limits
length-limits sha256 email none = omega arith
length-limits sha256 email (some ip) = omega arith

module _ (sha256 : String → String) (c : Attempts) (now : ℕ) (email : String) where
  pub quota_no_address :
      (es : List (AttemptKey × Counter))
      → quota c now (limits sha256 email none) ≡ some es
      → let x = counter c now (account_key sha256 email none) in
        es ≡ (account_key sha256 email none, (x.0 + 1, x.1)) ∷ []
  unfolding limits
  quota_no_address es h = ground arith

  pub quota_address :
      (ip : String) (es : List (AttemptKey × Counter))
      → quota c now (limits sha256 email (some ip)) ≡ some es
      → let x = counter c now (account_key sha256 email (some ip)) in
        let y = counter c now (address ip) in
        es
        ≡ (account_key sha256 email (some ip), (x.0 + 1, x.1)) ∷ (address ip, (y.0 + 1, y.1)) ∷ []
  unfolding limits
  quota_address ip es h = ground arith

  pub peek-store :
      (d : Attempts) (ip : Option String) (t : ℕ) (es : List (AttemptKey × Counter))
      → IsReady 2 d
      → quota c now (limits sha256 email ip) ≡ some es
      → t ≤ now + lifetime (counter c now (account_key sha256 email ip)).1 now * second
      → peek (store d now es) t (account_key sha256 email ip)
        ≡ some (
          (counter c now (account_key sha256 email ip)).0 + 1,
          (counter c now (account_key sha256 email ip)).1,
        )
  peek-store d none t es r q le =
      let k = account_key sha256 email none in
      let x = counter c now k in
      rw (quota_no_address es q) (
        store_one 0 d now t k k (x.0 + 1, x.1) (IsReady-le 1 2 d (omega arith) r) le
        ∙ rw (==_refl k))
  peek-store d (some ip) t es r q le =
      let k = account_key sha256 email (some ip) in
      let x = counter c now k in
      let y = counter c now (address ip) in
      rw (quota_address ip es q)
        (store_two 0 d now t k (address ip) (x.0 + 1, x.1) (y.0 + 1, y.1) r refl le)

  pub quota_no_email :
      (ip : Option String) (digest : String) (es : List (AttemptKey × Counter))
      → quota c now (limits sha256 email ip) ≡ some es
      → All (λ x. (x.0 == email_fail digest) ≡ false) es
  quota_no_email none digest es q = rw (quota_no_address es q) (refl, tt)
  quota_no_email (some ip) digest es q = rw (quota_address ip es q) (refl, (refl, tt))
