-- ===== src/Accounts/Failures.antt =====
-- Sign-in, registration and removal where they are refused.
use brasil_lens_backend.Common.{
  ℕ, ◌≤◌, ◌<◌, ◌∙◌, lt→ltb, ◌≡◌, Bool, true, false, Option, none, some, String, string_eq, List,
  arith, Option-cases, inl, inr, is_some,
}
use brasil_lens_backend.Errors.{ok, raise}
use brasil_lens_backend.Cache.Room.{IsReady, peek}
use brasil_lens_backend.RateLimit.{
  key_eq, email_key, check_auth_attempt, record_auth_failure, rate_limited,
}
use brasil_lens_backend.RateLimit.Check.{locked_until, check_auth_attempt_iff}
use brasil_lens_backend.RateLimit.Counting.{peek-check_email}
use brasil_lens_backend.Password.{verify_password}
use brasil_lens_backend.Accounts.Users
use brasil_lens_backend.Accounts.Users.{User, Tables}
use brasil_lens_backend.Accounts.{
  State, Draw, LoginRequest, RegisterRequest, bad_credentials, email_taken, wrong_password, login,
  register, delete_account, stored_hash,
}

module _ (sha256 : String → String) (scrypt : List ℕ → List ℕ → List ℕ) where
  module _ (s : State) (d : Draw) (body : LoginRequest) (old_token ip : Option String) where
    -- The attempt is let through by the counters.
    abbrev pub LetThrough : Type 0
    LetThrough = (check_auth_attempt sha256 s.attempts d.monotonic body.email ip).1 ≡ ok tt

    -- The e-mail has an account and the password is its.
    abbrev pub accepted : Bool
    accepted = elim (Users.by_email s.tables body.email) [
      | none ↦ false
      | some u ↦ verify_password scrypt body.password (stored_hash sha256 scrypt (some u))
    ]

    -- A refused sign-in that the counters let through leaves the tables as they were, counts one
    -- failure for the e-mail, and has one answer, whether the e-mail has an account or not.
    pub login_refused :
        LetThrough
        → accepted ≡ false
        → login sha256 scrypt s d body old_token ip ≡ (
          record {
            tables = s.tables;
            attempts =
                record_auth_failure sha256
                  (check_auth_attempt sha256 s.attempts d.monotonic body.email ip).0
                  d.monotonic
                  body.email;
          },
          raise bad_credentials,
        )
    unfolding login
    login_refused h refused = elim (Option-cases (Users.by_email s.tables body.email)) [
      | inl p ↦ rw (h, p, login)
      | inr (u, p) ↦ rw (h, p, login) (ground (arith, refused, p))
    ]

    -- While the e-mail is locked, a sign-in is refused whatever the password, and no table changes.
    pub login_locked :
        IsReady 0 s.attempts
        → d.monotonic < locked_until sha256 s.attempts d.monotonic body.email
        → ((login sha256 scrypt s d body old_token ip).1 ≡ raise rate_limited)
          × ((login sha256 scrypt s d body old_token ip).0.tables ≡ s.tables)
    unfolding login
    login_locked r h =
        let e : (check_auth_attempt sha256 s.attempts d.monotonic body.email ip).1
            ≡ raise rate_limited =
          check_auth_attempt_iff sha256 s.attempts d.monotonic body.email ip r
          ∙ rw (lt→ltb _ _ h) in
        (rw (e, login), rw (e, login))

  module _ (s : State) (d : Draw) (body : RegisterRequest) (old_token ip : Option String) where
    -- A registration under an e-mail that is taken fails with a conflict, changes no table, and
    -- counts no failure for the e-mail: its lock stays as it was.
    pub register_taken :
        (t : ℕ)
        → IsReady 2 s.attempts
        → (check_auth_attempt sha256 s.attempts d.monotonic body.email ip).1 ≡ ok tt
        → is_some (Users.by_email s.tables body.email) ≡ true
        → d.monotonic ≤ t
        → ((register sha256 scrypt s d body old_token ip).1 ≡ raise email_taken)
          × ((register sha256 scrypt s d body old_token ip).0.tables ≡ s.tables)
          × (peek
                (register sha256 scrypt s d body old_token ip).0.attempts
                t
                (email_key sha256 body.email)
              ≡ peek s.attempts t (email_key sha256 body.email))
    unfolding register Users.create Users.by_email
    register_taken t r h taken le = (
      rw (h, taken, register),
      rw (h, taken, register),
      rw (h, taken, register)
          (peek-check_email sha256 s.attempts d.monotonic body.email ip t (sha256 body.email) r le),
    )

  -- A removal with the wrong password removes nothing, and counts a failure for the e-mail.
  pub delete_account_refused :
      (s : State) (d : Draw) (user : User) (password : List ℕ) (ip : Option String) (email : String)
      (stored : List ℕ)
      → user.email ≡ some email
      → user.password_hash ≡ some stored
      → (check_auth_attempt sha256 s.attempts d.monotonic email ip).1 ≡ ok tt
      → verify_password scrypt password stored ≡ false
      → delete_account sha256 scrypt s d user password ip ≡ (
        record {
          tables = s.tables;
          attempts =
              record_auth_failure sha256
                (check_auth_attempt sha256 s.attempts d.monotonic email ip).0
                d.monotonic
                email;
        },
        raise wrong_password,
      )
  unfolding delete_account
  delete_account_refused s d user password ip email stored p q h bad =
      rw (p, q, h, bad, delete_account)
