-- ===== src/Accounts/Sessions.antt =====
-- Sessions: whom a token signs in, after a session is opened or removed and after a sign-out.
use brasil_lens_backend.Common.{
  ℕ, ◌≤◌, ◌≡◌, refl, Bool, false, not, ◌&&◌, none, some, String, string_eq, option_eq, List, [],
  ◌∷◌, ◌==◌, ==_iff, arith, ltb→lt, lt→leb_false, find_first, find_first-append, find_first-keep,
  keep, leb, ltb,
}
use brasil_lens_backend.Errors.{is_ok}
use brasil_lens_backend.Accounts.Users.{UserSession, Tables, by_token, add_session, remove_session}
use brasil_lens_backend.Accounts.{current_user, logout}

pub none_kept :
    {A : Type 0} (p q : A → Bool) (xs : List A)
    → find_first p xs ≡ none
    → find_first p (keep q xs) ≡ none
none_kept p q [] h = refl
none_kept p q (x ∷ xs) h = ground (arith, none_kept p q xs)

none_narrower :
    {A : Type 0} (p q : A → Bool) (xs : List A)
    → find_first p xs ≡ none
    → find_first (λ x. p x && q x) xs ≡ none
none_narrower p q [] h = refl
none_narrower p q (x ∷ xs) h = ground (arith, none_narrower p q xs)

dropped :
    (hash : String) (q : UserSession → Bool) (ss : List UserSession)
    → find_first (λ s. s.token_hash == hash && q s) (keep (λ s. not (s.token_hash == hash)) ss)
      ≡ none
dropped hash q [] = refl
dropped hash q (s ∷ ss) = ground (arith, dropped hash q ss)

-- No account is signed in by a token whose session was removed.
pub by_token-remove_session :
    (t : Tables) (now : ℕ) (hash : String) → by_token (remove_session t hash) now hash ≡ none
unfolding by_token remove_session
by_token-remove_session t now hash =
    ground (arith, dropped hash (λ s. ltb now s.expires_at) t.sessions)

-- Removing a session leaves the others as they were.
pub by_token-remove_other :
    (t : Tables) (now : ℕ) (hash hash' : String)
    → (hash == hash') ≡ false
    → by_token (remove_session t hash) now hash' ≡ by_token t now hash'
unfolding by_token remove_session
by_token-remove_other t now hash hash' ne = ground (
  arith,
  find_first-keep (λ s. s.token_hash == hash' && ltb now s.expires_at)
      (λ s. not (s.token_hash == hash)) t.sessions
      (λ s h.
        ground (arith, ==_iff s.token_hash hash, ==_iff s.token_hash hash', ==_iff hash hash')),
)

-- A session opened for one token leaves those of the others, but for what has expired.
pub by_token-add_other :
    (t : Tables) (now now' expires : ℕ) (user_id hash hash' : String)
    → (hash == hash') ≡ false
    → now ≤ now'
    → by_token (add_session t now user_id hash expires) now' hash' ≡ by_token t now' hash'
unfolding by_token add_session
by_token-add_other t now now' expires user_id hash hash' ne le = ground (
  arith,
  find_first-append (λ s. s.token_hash == hash' && ltb now' s.expires_at)
      (keep (λ s. not (leb s.expires_at now)) t.sessions)
      (record { token_hash = hash; user_id = user_id; expires_at = expires } ∷ []),
  find_first-keep (λ s. s.token_hash == hash' && ltb now' s.expires_at)
      (λ s. not (leb s.expires_at now)) t.sessions
      (λ s h. ground (arith, ltb→lt now' s.expires_at, lt→leb_false s.expires_at now)),
  ne,
)

module _ (sha256 : String → String) (scrypt : List ℕ → List ℕ → List ℕ) where
  -- After a sign-out the token signs nobody in, at any time, and every other token signs in whom it
  -- did.
  pub logout_forgets :
      (t : Tables) (now : ℕ) (token other : String)
      → (token == "") ≡ false
      → (sha256 token == sha256 other) ≡ false
      → let after = logout sha256 scrypt t (some token) in
        (is_ok (current_user sha256 scrypt after now (some token)) ≡ false)
        × (current_user sha256 scrypt after now (some other)
            ≡ current_user sha256 scrypt t now (some other))
  unfolding logout current_user
  logout_forgets t now token other named ne = (
    ground (arith, named, by_token-remove_session t now (sha256 token)),
    ground (arith, named, by_token-remove_other t now (sha256 token) (sha256 other) ne),
  )
