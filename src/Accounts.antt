-- ===== src/Accounts.antt =====
-- app/services/auth.py over app/repositories/users.py, app/models/user.py and the write session of
-- app/api/deps.py: accounts, their sessions, and the counters of sign-in attempts beside them.
-- The tables are lists; a service returns the tables and counters that it leaves, also beside an
-- error. What is drawn or read outside (instants, identifiers, salt, token) comes in a `Draw`.
-- E-mails and tokens are texts; a password is its list of codes.
pub mod Users
pub mod Failures
pub mod Sessions
pub mod SignIn
pub mod Removal
pub mod Reachable
use brasil_lens_backend.Common.{
  zero, suc, ℕ, ◌+◌, ◌*◌, Bool, true, false, not, Option, none, some, String, string_eq, option_eq,
  List, [], ◌∷◌, ◌++◌, ◌==◌, map, or_default, keep, find_first, leb, ltb, is_some, if◌then◌else◌,
}
use brasil_lens_backend.Errors.{
  Result, ok, raise, DomainError, internal, authentication, conflict, invalid_parameter,
}
use brasil_lens_backend.Cache.{second}
use brasil_lens_backend.RateLimit.{
  Attempts, check_auth_attempt, record_auth_failure, clear_auth_attempts,
}
use brasil_lens_backend.Password.{scrypt_name, hash_password, verify_password}
use brasil_lens_backend.Accounts.Users
use brasil_lens_backend.Accounts.Users.{User, UserSession, Tables}

abbrev pub session_seconds : ℕ
session_seconds = 30 * 24 * 60 * 60

abbrev pub terms_version : String
terms_version = "2026-11-02"

pub record State : Type 0 where
  pub tables : Tables
  pub attempts : Attempts

-- `now` is the date and time, `monotonic` the clock of the counters, both in microseconds.
pub record Draw : Type 0 where
  pub now : ℕ
  pub monotonic : ℕ
  pub fresh_id : String
  pub salt : List ℕ
  pub token : String

pub record LoginRequest : Type 0 where
  pub email : String
  pub password : List ℕ

pub record RegisterRequest : Type 0 where
  pub email : String
  pub password : List ℕ
  pub name : String
  pub theme : String

pub record UserOut : Type 0 where
  pub id : String
  pub name : String
  pub email : String
  pub theme : String
  pub terms_accepted : Bool

-- `if token`: an empty text counts as none
abbrev pub given : Option String → Option String
given none = none
given (some s) = if s == "" then none else some s

-- The assertion that the account has an e-mail is an `internal` error.
unfoldable pub to_schema : User → Result UserOut
to_schema user = elim user.email [
  | none ↦ raise (internal "AssertionError")
  | some email ↦ ok (record {
    id = user.id;
    name = user.name;
    email = email;
    theme = user.theme;
    terms_accepted = user.terms_version == some terms_version;
  })
]

abbrev pub bad_credentials : DomainError
bad_credentials = authentication "E-mail ou senha incorretos."

abbrev pub email_taken : DomainError
email_taken = conflict "Este e-mail já está cadastrado. Entre na sua conta."

abbrev pub wrong_password : DomainError
wrong_password = invalid_parameter "Senha incorreta." (some "password")

-- A service that ends in an error leaves its writes to the tables undone: the write session rolls
-- back. The counters are memory of the process, and stay.
unfoldable pub write_session {ℓ} :
    {A : Type ℓ} → (State → State × Result A) → State → State × Result A
write_session service s =
    let (s', r) = service s in
    elim r [ ok a ↦ (s', ok a) | raise e ↦ (record s' { tables = s.tables }, raise e) ]

abbrev pub times : ℕ → ℕ → List ℕ
times zero c = []
times (suc n) c = c ∷ times n c

-- "scrypt$" + "00" * 16 + "$" + "00" * 32, in codes
abbrev pub dummy_hash : List ℕ
dummy_hash = scrypt_name ++ (36 ∷ (times 32 48 ++ (36 ∷ times 64 48)))

module _ (sha256 : String → String) (scrypt : List ℕ → List ℕ → List ℕ) where
  unfoldable pub current_user : Tables → ℕ → Option String → Result User
  current_user t now token =
      let user : Option User = elim (given token) [
        | none ↦ none
        | some k ↦ Users.by_token t now (sha256 k)
      ] in
      elim user [
        | none ↦ raise (authentication "Entre na sua conta para continuar.")
        | some u ↦ ok u
      ]

  abbrev pub without_old : Tables → Option String → Tables
  without_old t old_token = elim (given old_token) [
    | none ↦ t
    | some k ↦ Users.remove_session t (sha256 k)
  ]

  unfoldable pub start_session :
      Tables → Draw → User → Option String → Tables × Result (UserOut × String)
  unfolding to_schema
  start_session t d user old_token =
      let t' =
        Users.add_session (without_old t old_token) d.now user.id (sha256 d.token)
          (d.now + session_seconds * second) in
      (t', elim (to_schema user) [ ok out ↦ ok (out, d.token) | raise e ↦ raise e ])

  unfoldable pub enter :
      State → Attempts → Draw → User → Option String → State × Result (UserOut × String)
  unfolding start_session
  enter s attempts d user old_token =
      let (t, r) = start_session s.tables d user old_token in
      (record { tables = t; attempts = attempts }, r)

  -- The account that a registration creates.
  abbrev pub new_user : Draw → RegisterRequest → User
  new_user d body = record {
    id = d.fresh_id;
    name = body.name;
    email = some body.email;
    password_hash = some (hash_password scrypt body.password d.salt);
    theme = body.theme;
    terms_version = some terms_version;
    terms_accepted_at = some d.now;
  }

  unfoldable pub register :
      State
      → Draw
      → RegisterRequest
      → Option String
      → Option String
      → State × Result (UserOut × String)
  unfolding enter
  register s d body old_token ip =
      let (att, checked) = check_auth_attempt sha256 s.attempts d.monotonic body.email ip in
      let user = new_user d body in
      elim checked [
        | raise e ↦ (record s { attempts = att }, raise e)
        | ok _ ↦ elim (Users.create s.tables user) [
          | none ↦ (record s { attempts = att }, raise email_taken)
          | some t ↦
              enter (record s { tables = t })
                (clear_auth_attempts sha256 att d.monotonic body.email ip) d user old_token
        ]
      ]

  -- The digest that the password is checked against: the dummy one where there is none.
  abbrev pub stored_hash : Option User → List ℕ
  stored_hash none = dummy_hash
  stored_hash (some u) = elim u.password_hash [
    | none ↦ dummy_hash
    | some [] ↦ dummy_hash
    | some h ↦ h
  ]

  unfoldable pub login :
      State
      → Draw
      → LoginRequest
      → Option String
      → Option String
      → State × Result (UserOut × String)
  unfolding enter
  login s d body old_token ip =
      let (att, checked) = check_auth_attempt sha256 s.attempts d.monotonic body.email ip in
      let user = Users.by_email s.tables body.email in
      let valid = verify_password scrypt body.password (stored_hash user) in
      let failed = record s { attempts = record_auth_failure sha256 att d.monotonic body.email } in
      elim checked [
        | raise e ↦ (record s { attempts = att }, raise e)
        | ok _ ↦ elim user [
          | none ↦ (failed, raise bad_credentials)
          | some u ↦
              if not valid
              then (failed, raise bad_credentials)
              else enter s (clear_auth_attempts sha256 att d.monotonic body.email ip) d u old_token
        ]
      ]

  unfoldable pub logout : Tables → Option String → Tables
  logout t token = without_old t token

  unfoldable pub delete_account :
      State → Draw → User → List ℕ → Option String → State × Result (Unit {0})
  delete_account s d user password ip = elim user.email [
    | none ↦ (s, raise (internal "AssertionError"))
    | some email ↦ elim user.password_hash [
      | none ↦ (s, raise (internal "AssertionError"))
      | some stored ↦
          let (att, checked) = check_auth_attempt sha256 s.attempts d.monotonic email ip in
          elim checked [
            | raise e ↦ (record s { attempts = att }, raise e)
            | ok _ ↦
                if not (verify_password scrypt password stored)
                then (
                  record s { attempts = record_auth_failure sha256 att d.monotonic email },
                  raise wrong_password,
                )
                else (
                  record {
                    tables = Users.remove s.tables user.id;
                    attempts = clear_auth_attempts sha256 att d.monotonic email ip;
                  },
                  ok tt,
                )
          ]
    ]
  ]

-- `scalar_one` fails where no row was updated: an `internal` error.
unfoldable pub update_theme : Tables → String → String → Tables × Result UserOut
unfolding to_schema
update_theme t user_id theme =
    let (t', row) = Users.set_theme t user_id theme in
    (t', elim row [ none ↦ raise (internal "NoResultFound") | some u ↦ to_schema u ])

unfoldable pub accept_terms : Tables → ℕ → String → Tables × Result UserOut
unfolding to_schema
accept_terms t now user_id =
    let (t', row) = Users.accept_terms t now user_id terms_version in
    (t', elim row [ none ↦ raise (internal "NoResultFound") | some u ↦ to_schema u ])
