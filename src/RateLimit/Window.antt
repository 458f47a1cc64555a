-- ===== src/RateLimit/Window.antt =====
-- How many attempts an account and address get through a window, among those of others.
use brasil_lens_backend.Common.{
  sym, subst, Bool, false, ◌&&◌, ◌==◌, ==_iff, string_eq, option_eq, ℕ, suc, ◌+◌, ◌*◌, ◌≤◌, ◌<◌,
  ◌≡◌, refl, Option, none, some, String, List, [], ◌∷◌, arith, if◌then◌else◌, length, lookup,
  Bool-cases, inl, inr,
}
use brasil_lens_backend.Errors.{ok, is_ok}
use brasil_lens_backend.Cache.{second, Entry}
use brasil_lens_backend.Cache.Reads.{live}
use brasil_lens_backend.Cache.Room.{IsReady, peek, IsReady-le}
use brasil_lens_backend.RateLimit.Others.{
  peek-failure_other, IsReady-failure, peek-clear_other, IsReady-clear, peek-check_other,
}
use brasil_lens_backend.RateLimit.{
  account, record_auth_failure, clear_auth_attempts, key_eq, Counter, Attempts, window_seconds,
  account_limit, check_auth_attempt,
}
use brasil_lens_backend.RateLimit.Check.{counter, check_auth_attempt_iff}
use brasil_lens_backend.RateLimit.Counting.{
  peek-check_auth_attempt, peek-check_refused, IsReady-check,
}

-- What the counters meet: an attempt of an e-mail from an address, a failure of an e-mail, and a
-- sign-in that succeeds, which clears the counters of its e-mail and address.
pub data Event : Type 0 where
  attempted : ℕ → String → Option String → Event
  failed : ℕ → String → Event
  succeeded : ℕ → String → Option String → Event

abbrev pub instant : Event → ℕ
instant (attempted now email ip) = now
instant (failed now email) = now
instant (succeeded now email ip) = now

-- Instants that never go back, between two.
abbrev pub Ascending : ℕ → List Event → ℕ → Type 0
Ascending s [] t = s ≤ t
Ascending s (x ∷ xs) t = (s ≤ instant x) × Ascending (instant x) xs t

none_later : (s t : ℕ) (o : Option (Entry Counter)) → s ≤ t → live s o ≡ none → live t o ≡ none
none_later s t none le h = refl
none_later s t (some x) le h = ground arith

Ascending-le : (s : ℕ) (xs : List Event) (t : ℕ) → Ascending s xs t → s ≤ t
Ascending-le s [] t h = h
Ascending-le s (x ∷ xs) t h = omega (arith, h.0, Ascending-le (instant x) xs t h.1)

-- Until `end` the counter of an account and address stands at `a`, and its window does not close before.
Window : String → Option String → Attempts → ℕ → ℕ → ℕ → Type 0
Window digest ip c s end a =
    (t : ℕ)
    → s ≤ t
    → t ≤ end
    → ((counter c t (account digest ip)).0 ≡ a) × (end ≤ (counter c t (account digest ip)).1)

-- What does not touch the counter leaves its window.
Window-same :
    (digest : String) (ip : Option String) (c c' : Attempts) (s now end a : ℕ)
    → s ≤ now
    → Window digest ip c s end a
    → ((t : ℕ) → now ≤ t → peek c' t (account digest ip) ≡ peek c t (account digest ip))
    → Window digest ip c' now end a
unfolding Window
Window-same digest ip c c' s now end a le w same t p q =
    rw (same t p) (w t (omega (arith, le, p)) q)

module _ (sha256 : String → String) where
  Window-step :
      (email : String) (ip : Option String) (c : Attempts) (s now end a : ℕ)
      → IsReady 2 c
      → s ≤ now
      → now ≤ end
      → Window (sha256 email) ip c s end a
      → (check_auth_attempt sha256 c now email ip).1 ≡ ok tt
      → Window (sha256 email) ip (check_auth_attempt sha256 c now email ip).0 now end (suc a)
  unfolding Window
  Window-step email ip c s now end a r le m w h t p q =
      let (e, u) = w now le m in
      rw (peek-check_auth_attempt sha256 c now email ip t r h p (omega (arith, u)))
        (omega (arith, e), u)

  through_below_limit :
      (email : String) (ip : Option String) (c : Attempts) (s now end a : ℕ)
      → IsReady 2 c
      → s ≤ now
      → now ≤ end
      → Window (sha256 email) ip c s end a
      → (check_auth_attempt sha256 c now email ip).1 ≡ ok tt
      → a < account_limit
  unfolding Window
  through_below_limit email ip c s now end a r le m w h = ground (
    arith,
    w now le m,
    check_auth_attempt_iff sha256 c now email ip (IsReady-le 0 2 c (omega arith) r),
  )

  module _ (digest : String) (ip : Option String) where
    -- An attempt of the account and address: its e-mail has the digest.
    abbrev pub is_own : String → Option String → Bool
    is_own email from = sha256 email == digest && from == ip

    -- How many attempts of the account and address are let through.
    unfoldable pub let_through : Attempts → List Event → ℕ
    let_through c [] = 0
    let_through c (attempted now email from ∷ rest) =
        let (c', r) = check_auth_attempt sha256 c now email from in
        let n = let_through c' rest in if is_ok r && is_own email from then suc n else n
    let_through c (failed now email ∷ rest) =
        let_through (record_auth_failure sha256 c now email) rest
    let_through c (succeeded now email from ∷ rest) =
        let_through (clear_auth_attempts sha256 c now email from) rest

    -- None of the sign-ins that succeed is of the account and address.
    abbrev pub NoneSucceeded : List Event → Type 0
    NoneSucceeded [] = Unit
    NoneSucceeded (succeeded now email from ∷ rest) =
        (is_own email from ≡ false) × NoneSucceeded rest
    NoneSucceeded (_ ∷ rest) = NoneSucceeded rest

    through_bound :
        (c : Attempts) (events : List Event) (s end a : ℕ)
        → IsReady (2 * length events) c
        → Ascending s events end
        → NoneSucceeded events
        → Window digest ip c s end a
        → a ≤ account_limit
        → let_through c events + a ≤ account_limit
    unfolding let_through
    through_bound c [] s end a r asc others w b = omega arith
    through_bound c (failed now email ∷ rest) s end a r asc others w b =
        let r' : IsReady (suc (suc (2 * length rest))) c = IsReady-le _ _ c (omega arith) r in
        through_bound (record_auth_failure sha256 c now email) rest now end a
          (IsReady-failure sha256 c now email (2 * length rest) (IsReady-le _ _ c (omega arith) r'))
          asc.1 others
          (Window-same digest ip c (record_auth_failure sha256 c now email) s now end a asc.0 w
            (λ t p. peek-failure_other sha256 c now email (suc (2 * length rest)) t digest ip r' p))
          b
    through_bound c (succeeded now email from ∷ rest) s end a r asc others w b =
        let r' : IsReady (suc (suc (2 * length rest))) c = IsReady-le _ _ c (omega arith) r in
        through_bound (clear_auth_attempts sha256 c now email from) rest now end a
          (IsReady-clear sha256 c now email (2 * length rest) from r') asc.1 others.1
          (Window-same digest ip c (clear_auth_attempts sha256 c now email from) s now end a asc.0 w
            (λ t p.
              peek-clear_other sha256 c now email (2 * length rest) t from ip digest r' others.0))
          b
    through_bound c (attempted now email from ∷ rest) s end a r asc others w b =
        elim (Bool-cases (is_own email from)) [
          | inr other ↦ ground (
            arith,
            other,
            through_bound c' rest now end a r' asc.1 others
                (Window-same digest ip c c' s now end a asc.0 w
                  (λ t p. peek-check_other sha256 c now email t from ip digest r2 other p))
                b,
          )
          | inl own ↦ elim (Bool-cases (is_ok (check_auth_attempt sha256 c now email from).1)) [
            | inl p ↦
                let h : (check_auth_attempt sha256 c now email from).1 ≡ ok tt = ground arith in
                let same : account (sha256 email) from ≡ account digest ip =
                  (==_iff (account (sha256 email) from) (account digest ip)).0 own in
                let e : sha256 email ≡ digest = cc same in
                let f : from ≡ ip = cc same in
                let w' : Window (sha256 email) from c s end a =
                  subst (λ d. Window d from c s end a) (sym e)
                    (subst (λ i. Window digest i c s end a) (sym f) w) in
                let next : Window (sha256 email) from c' now end (suc a) =
                  Window-step email from c s now end a r2 asc.0 le w' h in
                ground (
                  arith,
                  own,
                  through_below_limit email from c s now end a r2 asc.0 le w' h,
                  through_bound c' rest now end (suc a) r' asc.1 others (
                      subst (λ d. Window d ip c' now end (suc a)) e
                        (subst (λ i. Window (sha256 email) i c' now end (suc a)) f next)),
                )
            | inr p ↦ ground (
              arith,
              through_bound c' rest now end a r' asc.1 others
                  (Window-same digest ip c c' s now end a asc.0 w (λ t q.
                    peek-check_refused sha256 c now email from t (account digest ip)
                      (IsReady-le 0 2 c (omega arith) r2) (λ h. cc (h, p)) q))
                  b,
            )
          ]
        ]
      where
        r2 : IsReady 2 c
        r2 = IsReady-le 2 (2 * length (attempted now email from ∷ rest)) c (omega arith) r

        c' : Attempts
        c' = (check_auth_attempt sha256 c now email from).0

        r' : IsReady (2 * length rest) c'
        r' = IsReady-check sha256 c now email from (2 * length rest) (
            IsReady-le (2 + 2 * length rest) (2 * length (attempted now email from ∷ rest)) c
              (omega arith) r)

        le : now ≤ end
        le = Ascending-le now rest end asc.1

    -- From a moment when nothing is counted for an account and address, whatever attempts and failures
    -- of any e-mails and sign-ins of others follow within `window_seconds`, at most `account_limit`
    -- attempts of the account and address are let through, as long as none of them ends in a sign-in,
    -- which clears the counter. The table has room for the counters, two for each event.
    pub let_through-le-account_limit :
        (c : Attempts) (s : ℕ) (events : List Event)
        → IsReady (2 * length events) c
        → peek c s (account digest ip) ≡ none
        → Ascending s events (s + window_seconds * second)
        → NoneSucceeded events
        → let_through c events ≤ account_limit
    unfolding Window
    let_through-le-account_limit c s events r free asc others = omega (
      arith,
      through_bound c events s (s + window_seconds * second) 0 r asc others first (omega arith),
    )
      where
        first : Window digest ip c s (s + window_seconds * second) 0
        first t p q = ground (arith, free, none_later s t (lookup (account digest ip) c.entries) p)
