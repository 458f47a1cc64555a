-- ===== src/RateLimit/Others.antt =====
-- What the counter of an account and address keeps of what is not its own: attempts of others,
-- failures, and sign-ins of others.
use brasil_lens_backend.Common.{
  ℕ, suc, ◌+◌, ◌≤◌, ◌≡◌, ◌∙◌, refl, false, Option, none, some, String, List, ◌==◌, arith, length,
  ltb→lt, All, Bool-cases, inl, inr, ltb, or_default,
}
use brasil_lens_backend.Errors.{ok, is_ok}
use brasil_lens_backend.Cache
use brasil_lens_backend.Cache.{TtlCache}
use brasil_lens_backend.Cache.Reads.{lookup-set_room, set_zero}
use brasil_lens_backend.Cache.Room.{IsReady, peek, peek-get, IsReady-get, IsReady-set, IsReady-le}
use brasil_lens_backend.RateLimit.{
  AttemptKey, account, key_eq, Counter, Attempts, limits, account_key, email_key,
  check_auth_attempt, record_auth_failure, clear_auth_attempts,
}
use brasil_lens_backend.RateLimit.Check.{quota}
use brasil_lens_backend.RateLimit.Stored.{
  quota_no_address, quota_address, length-quota, length-limits,
}
use brasil_lens_backend.RateLimit.Counting.{
  swept, check-store, store_other, IsReady-swept, peek-swept, peek-check_refused,
}

peek-set_other :
    (n : ℕ) (c : Attempts) (now : ℕ) (k : AttemptKey) (v : Counter) (l : Option ℕ) (t : ℕ)
    (j : AttemptKey)
    → IsReady (suc n) c
    → (k == j) ≡ false
    → peek (Cache.set c now k v l) t j ≡ peek c t j
peek-set_other n c now k v l t j r ne = elim (Bool-cases (ltb 0 (or_default l c.ttl))) [
  | inr off ↦ rw (set_zero c now k v l off)
  | inl pos ↦
      rw
        (lookup-set_room c now k j v l r.valid.distinct r.on (ltb→lt _ _ pos)
          (omega (arith, r.room)))
        (ground (arith, ne))
]

module _ (sha256 : String → String) (c : Attempts) (now : ℕ) (email : String) where
  -- A failure touches no counter but the one of its e-mail.
  pub peek-failure_other :
      (n t : ℕ) (digest : String) (ip : Option String)
      → IsReady (suc n) c
      → now ≤ t
      → peek (record_auth_failure sha256 c now email) t (account digest ip)
        ≡ peek c t (account digest ip)
  unfolding record_auth_failure
  peek-failure_other n t digest ip r le =
      peek-set_other n (Cache.get c now (email_key sha256 email)).0 now (email_key sha256 email) _ _
        t (account digest ip) (IsReady-get (suc n) c now (email_key sha256 email) r) refl
      ∙ peek-get (suc n) c now (email_key sha256 email) t (account digest ip) r le

  pub IsReady-failure :
      (n : ℕ) → IsReady (suc n) c → IsReady n (record_auth_failure sha256 c now email)
  unfolding record_auth_failure
  IsReady-failure n r =
      IsReady-set n (Cache.get c now (email_key sha256 email)).0 now (email_key sha256 email) _ _
        (IsReady-get (suc n) c now (email_key sha256 email) r)

  -- A sign-in touches no counter of another account or address.
  pub peek-clear_other :
      (n t : ℕ) (own ip : Option String) (digest : String)
      → IsReady (suc (suc n)) c
      → (account_key sha256 email own == account digest ip) ≡ false
      → peek (clear_auth_attempts sha256 c now email own) t (account digest ip)
        ≡ peek c t (account digest ip)
  unfolding clear_auth_attempts
  peek-clear_other n t own ip digest r ne =
      peek-set_other n (Cache.set c now (account_key sha256 email own) _ none) now
        (email_key sha256 email) _ _ t (account digest ip)
        (IsReady-set (suc n) c now (account_key sha256 email own) _ none r) refl
      ∙ peek-set_other (suc n) c now (account_key sha256 email own) _ none t (account digest ip) r
          ne

  pub IsReady-clear :
      (n : ℕ) (own : Option String)
      → IsReady (suc (suc n)) c
      → IsReady n (clear_auth_attempts sha256 c now email own)
  unfolding clear_auth_attempts
  IsReady-clear n own r =
      IsReady-set n (Cache.set c now (account_key sha256 email own) _ none) now
        (email_key sha256 email) _ _
        (IsReady-set (suc n) c now (account_key sha256 email own) _ none r)

  quota_no_account :
      (own ip : Option String) (digest : String) (es : List (AttemptKey × Counter))
      → (account_key sha256 email own == account digest ip) ≡ false
      → quota c now (limits sha256 email own) ≡ some es
      → All (λ x. (x.0 == account digest ip) ≡ false) es
  quota_no_account none ip digest es ne q = rw (quota_no_address sha256 c now email es q) (ne, tt)
  quota_no_account (some own) ip digest es ne q =
      rw (quota_address sha256 c now email own es q) (ne, (refl, tt))

  -- An attempt touches no counter of another account or address.
  pub peek-check_other :
      (t : ℕ) (own ip : Option String) (digest : String)
      → IsReady 2 c
      → (account_key sha256 email own == account digest ip) ≡ false
      → now ≤ t
      → peek (check_auth_attempt sha256 c now email own).0 t (account digest ip)
        ≡ peek c t (account digest ip)
  peek-check_other t own ip digest r ne le =
      elim (Bool-cases (is_ok (check_auth_attempt sha256 c now email own).1)) [
        | inl p ↦
            let h : (check_auth_attempt sha256 c now email own).1 ≡ ok tt = ground arith in
            let (es, q, state) = check-store sha256 c now email own 2 r h in
            rw state (
              store_other sha256 c now email own 0 (swept sha256 c now email own) es t
                (account digest ip)
                (IsReady-le (0 + length es) 2 (swept sha256 c now email own)
                  (omega (
                    arith,
                    length-quota c now (limits sha256 email own) es q,
                    length-limits sha256 email own,
                  ))
                  (IsReady-swept sha256 c now email own 2 r))
                (quota_no_account own ip digest es ne q)
              ∙ peek-swept sha256 c now email own 2 t (account digest ip) r le)
        | inr p ↦
            peek-check_refused sha256 c now email own t (account digest ip)
              (IsReady-le 0 2 c (omega arith) r) (λ h. cc (h, p)) le
      ]
