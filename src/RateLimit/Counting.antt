-- ===== src/RateLimit/Counting.antt =====
-- What an attempt, let through or refused, leaves in the counters.
use brasil_lens_backend.RateLimit.Stored.{
  lifetime, lifetime_reaches, lifetime_pos, IsReady-store, length-quota, length-limits, peek-store,
  quota_no_email,
}
use brasil_lens_backend.Common.{
  ℕ, suc, ◌+◌, ◌*◌, ◌≤◌, ◌≡◌, ◌≢◌, ◌∙◌, sym, refl, false, Option, some, String, List, [], ◌∷◌, ◌==◌,
  arith, ltb, or_default, length, All, Bool-cases, Option-cases, inl, inr,
}
use brasil_lens_backend.Errors.{ok, is_ok}
use brasil_lens_backend.Cache
use brasil_lens_backend.Cache.{TtlCache, second}
use brasil_lens_backend.Cache.Room.{
  IsReady, peek, peek-get, IsReady-get, peek-set, IsReady-set, IsReady-le,
}
use brasil_lens_backend.RateLimit.{
  AttemptKey, email_fail, key_eq, Counter, Attempts, scan, store, limits, account_key, email_key,
  check_auth_attempt,
}
use brasil_lens_backend.RateLimit.Check.{
  counter, quota, quota_of_get, scan-eq-quota, IsReady-scan, peek-scan,
}

module _ (sha256 : String → String) (c : Attempts) (now : ℕ) (email : String)
    (ip : Option String) where
  -- The counters after the loop that reads them.
  abbrev pub swept : Attempts
  swept = (scan (Cache.get c now (email_key sha256 email)).0 now (limits sha256 email ip)).0

  pub IsReady-swept : (n : ℕ) → IsReady n c → IsReady n swept
  IsReady-swept n r =
      IsReady-scan n now _ (limits sha256 email ip) (IsReady-get n c now (email_key sha256 email) r)

  pub peek-swept : (n t : ℕ) (j : AttemptKey) → IsReady n c → now ≤ t → peek swept t j ≡ peek c t j
  peek-swept n t j r le =
      peek-scan n now _ (limits sha256 email ip) t j
        (IsReady-get n c now (email_key sha256 email) r) le
      ∙ peek-get n c now (email_key sha256 email) t j r le

  pub check-store :
      (n : ℕ)
      → IsReady n c
      → (check_auth_attempt sha256 c now email ip).1 ≡ ok tt
      → (es : List (AttemptKey × Counter)) × (quota c now (limits sha256 email ip) ≡ some es)
        × ((check_auth_attempt sha256 c now email ip).0 ≡ store swept now es)
  unfolding check_auth_attempt
  check-store n r h =
      let c1 = (Cache.get c now (email_key sha256 email)).0 in
      let q : (scan c1 now (limits sha256 email ip)).1 ≡ quota c now (limits sha256 email ip) =
        scan-eq-quota n now c1 (limits sha256 email ip)
          (IsReady-get n c now (email_key sha256 email) r)
        ∙ quota_of_get n c now (email_key sha256 email) (limits sha256 email ip) r in
      elim (Option-cases (quota c now (limits sha256 email ip))) [
        | inl p ↦ ground (arith, q, p, h)
        | inr (es, p) ↦ (es, p, ground (arith, q, p, h))
      ]

  peek-check_lifetime :
      (t : ℕ)
      → IsReady 2 c
      → (check_auth_attempt sha256 c now email ip).1 ≡ ok tt
      → now ≤ t
      → t ≤ now + lifetime (counter c now (account_key sha256 email ip)).1 now * second
      → peek (check_auth_attempt sha256 c now email ip).0 t (account_key sha256 email ip)
        ≡ some (
          (counter c now (account_key sha256 email ip)).0 + 1,
          (counter c now (account_key sha256 email ip)).1,
        )
  peek-check_lifetime t r h le end =
      let (es, q, state) = check-store 2 r h in
      rw state (peek-store sha256 c now email swept ip t es (IsReady-swept 2 r) q end)

  -- An attempt that is let through counts one more for the account and address, and leaves the end
  -- of the window where it was: the counter can be read until then.
  pub peek-check_auth_attempt :
      (t : ℕ)
      → IsReady 2 c
      → (check_auth_attempt sha256 c now email ip).1 ≡ ok tt
      → now ≤ t
      → t ≤ (counter c now (account_key sha256 email ip)).1
      → peek (check_auth_attempt sha256 c now email ip).0 t (account_key sha256 email ip)
        ≡ some (
          (counter c now (account_key sha256 email ip)).0 + 1,
          (counter c now (account_key sha256 email ip)).1,
        )
  peek-check_auth_attempt t r h le end =
      peek-check_lifetime t r h le
        (omega (arith, lifetime_reaches (counter c now (account_key sha256 email ip)).1 now))

  -- A counter that can still be read when its window has ended is not started afresh: an attempt
  -- that is let through then counts on from it, and keeps it for at least another second.
  pub late_attempt-prolongs :
      (t a until : ℕ)
      → IsReady 2 c
      → peek c now (account_key sha256 email ip) ≡ some (a, until)
      → until ≤ now
      → (check_auth_attempt sha256 c now email ip).1 ≡ ok tt
      → now ≤ t
      → t ≤ now + second
      → peek (check_auth_attempt sha256 c now email ip).0 t (account_key sha256 email ip)
        ≡ some (a + 1, until)
  late_attempt-prolongs t a until r p late h le end = ground (
    arith,
    p,
    peek-check_lifetime t r h le
        (omega (arith, lifetime_pos (counter c now (account_key sha256 email ip)).1 now)),
  )

  -- A refused attempt changes no counter.
  pub peek-check_refused :
      (t : ℕ) (j : AttemptKey)
      → IsReady 0 c
      → (check_auth_attempt sha256 c now email ip).1 ≢ ok tt
      → now ≤ t
      → peek (check_auth_attempt sha256 c now email ip).0 t j ≡ peek c t j
  unfolding check_auth_attempt
  peek-check_refused t j r h le =
      ground (arith, peek-get 0 c now (email_key sha256 email) t j r, peek-swept 0 t j r)

  pub IsReady-check :
      (n : ℕ) → IsReady (2 + n) c → IsReady n (check_auth_attempt sha256 c now email ip).0
  unfolding check_auth_attempt
  IsReady-check n r =
      let ek = email_key sha256 email in
      let c1 = (Cache.get c now ek).0 in
      let lock = (or_default (Cache.get c now ek).1 (0, 0)).1 in
      elim (Bool-cases (ltb now lock)) [
        | inl p ↦
            rw (p, check_auth_attempt)
              (IsReady-le n (2 + n) c1 (omega arith) (IsReady-get (2 + n) c now ek r))
        | inr p ↦ elim (Option-cases (scan c1 now (limits sha256 email ip)).1) [
          | inl q ↦
              rw (p, q, check_auth_attempt)
                (IsReady-le n (2 + n) swept (omega arith) (IsReady-swept (2 + n) r))
          | inr (es, q) ↦
              rw (p, q, check_auth_attempt)
                (IsReady-store n swept now es (
                  IsReady-le (n + length es) (2 + n) swept
                    (fewer n es (
                      sym (
                        scan-eq-quota (2 + n) now c1 (limits sha256 email ip)
                          (IsReady-get (2 + n) c now ek r))
                      ∙ q))
                    (IsReady-swept (2 + n) r)))
        ]
      ]
    where
      fewer :
          (n : ℕ) (es : List (AttemptKey × Counter))
          → quota (Cache.get c now (email_key sha256 email)).0 now (limits sha256 email ip)
            ≡ some es
          → n + length es ≤ 2 + n
      fewer n es q = omega (
        arith,
        length-quota (Cache.get c now (email_key sha256 email)).0 now (limits sha256 email ip) es q,
        length-limits sha256 email ip,
      )

  pub store_other :
      (n : ℕ) (d : Attempts) (es : List (AttemptKey × Counter)) (t : ℕ) (j : AttemptKey)
      → IsReady (n + length es) d
      → All (λ x. (x.0 == j) ≡ false) es
      → peek (store d now es) t j ≡ peek d t j
  unfolding store
  store_other n d [] t j r ne = refl
  store_other n d ((k, x) ∷ es) t j r ne =
      let l = lifetime x.1 now in
      let r' = IsReady-le (suc (n + length es)) (n + suc (length es)) d (omega arith) r in
      ground (
        arith,
        ne.0,
        peek-set (n + length es) d now k x l t j r' (lifetime_pos x.1 now),
        store_other n (Cache.set d now k x (some l)) es t j
            (IsReady-set (n + length es) d now k x (some l) r') ne.1,
      )

  -- No attempt touches the count of failures of an e-mail.
  pub peek-check_email :
      (t : ℕ) (digest : String)
      → IsReady 2 c
      → now ≤ t
      → peek (check_auth_attempt sha256 c now email ip).0 t (email_fail digest)
        ≡ peek c t (email_fail digest)
  peek-check_email t digest r le =
      elim (Bool-cases (is_ok (check_auth_attempt sha256 c now email ip).1)) [
        | inl p ↦
            let h : (check_auth_attempt sha256 c now email ip).1 ≡ ok tt = ground arith in
            let (es, q, state) = check-store 2 r h in
            rw state (
              store_other 0 swept es t (email_fail digest)
                (IsReady-le (0 + length es) 2 swept
                  (omega (
                    arith,
                    length-quota c now (limits sha256 email ip) es q,
                    length-limits sha256 email ip,
                  ))
                  (IsReady-swept 2 r))
                (quota_no_email sha256 c now email ip digest es q)
              ∙ peek-swept 2 t (email_fail digest) r le)
        | inr p ↦
            peek-check_refused t (email_fail digest) (IsReady-le 0 2 c (omega arith) r)
              (λ h. cc (h, p)) le
      ]
