-- ===== src/Accounts/SignIn.antt =====
-- Signing in: what it answers, and whom each token signs in after it.
use brasil_lens_backend.Common.{
  if◌then◌else◌, ℕ, ◌+◌, ◌*◌, ◌≤◌, ◌≡◌, ◌∙◌, refl, true, false, not, ◌&&◌, Option, none, some,
  String, string_eq, option_eq, List, [], ◌∷◌, ◌==◌, ==_iff, ==_refl, arith, find_first,
  find_first-append, find_first-holds, keep, leb, ltb, is_some,
}
use brasil_lens_backend.Errors.{ok, raise, DomainError, authentication}
use brasil_lens_backend.Cache.{second}
use brasil_lens_backend.RateLimit.{Attempts, clear_auth_attempts, check_auth_attempt}
use brasil_lens_backend.Password.{verify_password}
use brasil_lens_backend.Accounts.Users
use brasil_lens_backend.Accounts.Users.{
  User, UserSession, Tables, by_email, by_token, add_session, remove_session,
}
use brasil_lens_backend.Accounts.Failures.{LetThrough}
use brasil_lens_backend.Accounts.{
  enter, to_schema, UserOut, terms_version, State, Draw, LoginRequest, session_seconds,
  current_user, start_session, login, stored_hash, to_schema,
}
use brasil_lens_backend.Accounts.Sessions.{
  none_kept, by_token-remove_session, by_token-remove_other, by_token-add_other,
}

-- No identifier twice.
abbrev pub UniqueIds : List User → Type 0
UniqueIds [] = Unit
UniqueIds (u ∷ us) = (find_first (λ v. v.id == u.id) us ≡ none) × UniqueIds us

absent_id :
    (i : String) (email : String) (us : List User) (u : User)
    → find_first (λ v. v.id == i) us ≡ none
    → find_first (λ v. v.email == some email) us ≡ some u
    → (i == u.id) ≡ false
absent_id i email [] u a h = cc h
absent_id i email (v ∷ us) u a h =
    ground (arith, ==_iff v.id i, ==_iff i u.id, ==_refl u.id, absent_id i email us u)

-- The account found by its e-mail is the one found by its identifier.
find_by_id :
    (email : String) (us : List User) (u : User)
    → UniqueIds us
    → find_first (λ v. v.email == some email) us ≡ some u
    → find_first (λ v. v.id == u.id && is_some v.email) us ≡ some u
find_by_id email [] u d h = cc h
find_by_id email (v ∷ us) u d h = ground (
  arith,
  absent_id v.id email us u d.0,
  ==_refl u.id,
  ==_iff v.id u.id,
  ==_iff u.id v.id,
  find_by_id email us u d.1,
)

-- Whom the session opened last signs in, until it expires.
pub by_token-add_session :
    (t : Tables) (now now' expires : ℕ) (user_id token_hash : String)
    → find_first (λ s. s.token_hash == token_hash) t.sessions ≡ none
    → by_token (add_session t now user_id token_hash expires) now' token_hash ≡ (
        if ltb now' expires
        then find_first (λ u. u.id == user_id && is_some u.email) t.users
        else none)
unfolding by_token add_session
by_token-add_session t now now' expires user_id token_hash fresh = ground (
  arith,
  ==_refl token_hash,
  find_first-append (λ s. s.token_hash == token_hash && ltb now' s.expires_at)
      (keep (λ s. not (leb s.expires_at now)) t.sessions)
      (record { token_hash = token_hash; user_id = user_id; expires_at = expires } ∷ []),
  fresh_kept t.sessions fresh,
)
  where
    fresh_kept :
        (ss : List UserSession)
        → find_first (λ s. s.token_hash == token_hash) ss ≡ none
        → find_first
            (λ s. s.token_hash == token_hash && ltb now' s.expires_at)
            (keep (λ s. not (leb s.expires_at now)) ss)
          ≡ none
    fresh_kept [] h = refl
    fresh_kept (s ∷ ss) h = ground (arith, fresh_kept ss)

-- What a sign-in answers for an account.
abbrev pub account_out : User → String → UserOut
account_out u email = record {
  id = u.id;
  name = u.name;
  email = email;
  theme = u.theme;
  terms_accepted = u.terms_version == some terms_version;
}

abbrev pub signed_out : DomainError
signed_out = authentication "Entre na sua conta para continuar."

module _ (sha256 : String → String) (scrypt : List ℕ → List ℕ → List ℕ) where
  -- A sign-in that is accepted opens a session.
  login-enter :
      (s : State) (d : Draw) (body : LoginRequest) (old ip : Option String) (u : User)
      → LetThrough sha256 scrypt s d body old ip
      → Users.by_email s.tables body.email ≡ some u
      → verify_password scrypt body.password (stored_hash sha256 scrypt (some u)) ≡ true
      → login sha256 scrypt s d body old ip
        ≡ enter sha256 scrypt s
            (clear_auth_attempts sha256
              (check_auth_attempt sha256 s.attempts d.monotonic body.email ip).0
              d.monotonic
              body.email
              ip)
            d
            u
            old
  unfolding login
  login-enter s d body old ip u h found right = rw (h, found, login) (ground (arith, found, right))

  -- The session's tables after a sign-in: whom they sign in by the new token, by the former one, and
  -- by any other.
  opened_by_token :
      (tables : Tables) (now t end : ℕ) (token old other email : String) (u : User)
      → UniqueIds tables.users
      → Users.by_email tables email ≡ some u
      → find_first (λ x. x.token_hash == token) tables.sessions ≡ none
      → (token == old) ≡ false
      → (token == other) ≡ false
      → (old == other) ≡ false
      → now ≤ t
      → let opened = add_session (remove_session tables old) now u.id token end in
        (by_token opened t token ≡ (if ltb t end then some u else none))
        × (by_token opened t old ≡ none)
        × (by_token opened t other ≡ by_token tables t other)
  unfolding Users.remove_session Users.by_email
  opened_by_token tables now t end token old other email u ids found fresh ne ne' ne'' le =
      let removed = remove_session tables old in
      let added = by_token-add_session removed now t end u.id token (
        none_kept (λ x. x.token_hash == token) (λ x. not (x.token_hash == old)) tables.sessions
          fresh) in
      (
        ground (arith, added, find_by_id email tables.users u ids found),
        by_token-add_other removed now t end u.id token old ne le
            ∙ by_token-remove_session tables t old,
        by_token-add_other removed now t end u.id token other ne' le
            ∙ by_token-remove_other tables t old other ne'',
      )

  entered_opens :
      (s : State) (c : Attempts) (d : Draw) (old other : String) (t : ℕ) (u : User) (email : String)
      → UniqueIds s.tables.users
      → Users.by_email s.tables email ≡ some u
      → find_first (λ x. x.token_hash == sha256 d.token) s.tables.sessions ≡ none
      → (d.token == "") ≡ false
      → (old == "") ≡ false
      → (sha256 d.token == sha256 old) ≡ false
      → (sha256 d.token == sha256 other) ≡ false
      → (sha256 old == sha256 other) ≡ false
      → d.now ≤ t
      → let after = enter sha256 scrypt s c d u (some old) in
        (after.1 ≡ ok (account_out u email, d.token))
        × (current_user sha256 scrypt after.0.tables t (some d.token)
            ≡ (if ltb t (d.now + session_seconds * second) then ok u else raise signed_out))
        × (current_user sha256 scrypt after.0.tables t (some old) ≡ raise signed_out)
        × (current_user sha256 scrypt after.0.tables t (some other)
            ≡ current_user sha256 scrypt s.tables t (some other))
  unfolding enter start_session current_user to_schema Users.by_email
  entered_opens s c d old other t u email ids found fresh named had ne ne' ne'' le =
      let (new, gone, kept) =
        opened_by_token s.tables d.now t (d.now + session_seconds * second) (sha256 d.token)
          (sha256 old) (sha256 other) email u ids found fresh ne ne' ne'' le in
      let mail : u.email ≡ some email =
        (==_iff u.email (some email)).0
          (find_first-holds (λ v. v.email == some email) s.tables.users u found) in
      (
        ground (arith, had, mail),
        ground (arith, had, named, new),
        ground (arith, had, gone),
        ground (arith, had, kept),
      )

  -- A sign-in with the right password that the counters let through, at an account whose
  -- identifier is its own, with a token that no session has, answers with the account and the token.
  -- From then on the token signs that account in for thirty days, and nobody after them; the token
  -- that the browser had before signs nobody in; and any other token signs in whom it did. The token
  -- and the former one are not empty, and the digests of the three differ.
  pub login_opens :
      (s : State) (d : Draw) (body : LoginRequest) (old other : String) (ip : Option String) (t : ℕ)
      (u : User)
      → LetThrough sha256 scrypt s d body (some old) ip
      → UniqueIds s.tables.users
      → Users.by_email s.tables body.email ≡ some u
      → verify_password scrypt body.password (stored_hash sha256 scrypt (some u)) ≡ true
      → find_first (λ x. x.token_hash == sha256 d.token) s.tables.sessions ≡ none
      → (d.token == "") ≡ false
      → (old == "") ≡ false
      → (sha256 d.token == sha256 old) ≡ false
      → (sha256 d.token == sha256 other) ≡ false
      → (sha256 old == sha256 other) ≡ false
      → d.now ≤ t
      → let after = login sha256 scrypt s d body (some old) ip in
        (after.1 ≡ ok (account_out u body.email, d.token))
        × (current_user sha256 scrypt after.0.tables t (some d.token)
            ≡ (if ltb t (d.now + session_seconds * second) then ok u else raise signed_out))
        × (current_user sha256 scrypt after.0.tables t (some old) ≡ raise signed_out)
        × (current_user sha256 scrypt after.0.tables t (some other)
            ≡ current_user sha256 scrypt s.tables t (some other))
  login_opens s d body old other ip t u h ids found right fresh named had ne ne' ne'' le =
      rw (login-enter s d body (some old) ip u h found right) (
        entered_opens s
          (clear_auth_attempts sha256
            (check_auth_attempt sha256 s.attempts d.monotonic body.email ip).0 d.monotonic
            body.email ip)
          d old other t u body.email ids found fresh named had ne ne' ne'' le)
