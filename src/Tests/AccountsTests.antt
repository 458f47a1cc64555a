-- ===== src/Tests/AccountsTests.antt =====
-- app/services/auth.py and the password digests of app/core/auth.py at concrete inputs. The digest
-- of a text is the text, and the key of a password is its length.
use brasil_lens_backend.Common.{
  ℕ, ◌*◌, ◌%◌, ◌≤◌, ◌≡◌, refl, false, String, string_eq, option_eq, List, [], ◌∷◌, none, some,
  lookup, set_item, del_item, nat_eq, arith, ◌==◌, length, All,
}
use brasil_lens_backend.Errors.{is_ok, ok, raise}
use brasil_lens_backend.Cache
use brasil_lens_backend.Cache.{second}
use brasil_lens_backend.Cache.Room.{IsReady, IsReady-init, peek}
use brasil_lens_backend.RateLimit.{
  key_eq, attempts_init, email_key, email_fail, check_auth_attempt, record_auth_failure,
  clear_auth_attempts,
}
use brasil_lens_backend.Password.{
  hex_digit, to_hex, digit_value, is_space, from_hex, split_dollar, same_codes, hash_password,
  verify_password,
}
use brasil_lens_backend.Password.RoundTrip.{IsByte, verify-hash_password}
use brasil_lens_backend.Accounts.Users
use brasil_lens_backend.Accounts.Users.{User, UserSession, Tables}
use brasil_lens_backend.Accounts.{
  State, Draw, LoginRequest, RegisterRequest, bad_credentials, email_taken, write_session,
  to_schema, current_user, start_session, enter, register, login, logout, delete_account,
}
use brasil_lens_backend.Accounts.Failures.{login_refused, register_taken}
use brasil_lens_backend.Accounts.Sessions.{logout_forgets}
use brasil_lens_backend.Accounts.SignIn.{account_out, signed_out, login_opens}
use brasil_lens_backend.Accounts.Removal.{delete_account_forgets}
use brasil_lens_backend.Accounts.Reachable.{IsValid, Request, Requests, Requests-IsValid}

program : Unit {0}
unfolding Cache.init Cache.enabled Cache.evict Cache.move_to_end Cache.get Cache.set lookup set_item
    del_item check_auth_attempt record_auth_failure clear_auth_attempts hex_digit to_hex digit_value
    is_space from_hex split_dollar hash_password verify_password Users.by_email Users.create
    Users.by_token Users.add_session Users.remove_session Users.remove Users.update_user to_schema
    write_session current_user start_session enter register login logout delete_account
program = tt

abbrev digest : String → String
digest s = s

abbrev key : List ℕ → List ℕ → List ℕ
key password salt = length password % 256 ∷ []

key-bytes : (p s : List ℕ) → All IsByte (key p s)
key-bytes p s = (omega arith, tt)

abbrev secret : List ℕ
secret = 1 ∷ 2 ∷ 3 ∷ []

abbrev wrong : List ℕ
wrong = 9 ∷ []

abbrev ana : User
ana = record {
  id = "a1";
  name = "Ana";
  email = some "ana@example.org";
  password_hash = some (hash_password key secret (16 ∷ 255 ∷ []));
  theme = "dark";
  terms_version = none;
  terms_accepted_at = none;
}

abbrev before : State
before = record {
  tables = record {
    users = ana ∷ [];
    sessions = record { token_hash = "old"; user_id = "a1"; expires_at = 900 * second } ∷ [];
  };
  attempts = attempts_init;
}

abbrev draw : Draw
draw = record { now = 5; monotonic = 5; fresh_id = "b2"; salt = 7 ∷ []; token = "new" }

abbrev right_body : LoginRequest
right_body = record { email = "ana@example.org"; password = secret }

abbrev wrong_body : LoginRequest
wrong_body = record { email = "ana@example.org"; password = wrong }

abbrev taken_body : RegisterRequest
taken_body = record { email = "ana@example.org"; password = wrong; name = "Bia"; theme = "light" }

ready : (n : ℕ) → n ≤ 20_000 → IsReady n attempts_init
ready n le = IsReady-init n 300 20_000 (omega arith) (omega arith) le

verify-hash_password_example :
    verify_password key wrong (hash_password key secret (16 ∷ 255 ∷ []))
    ≡ same_codes (key wrong (16 ∷ 255 ∷ [])) (key secret (16 ∷ 255 ∷ []))
verify-hash_password_example =
    verify-hash_password key key-bytes secret wrong (16 ∷ 255 ∷ []) (omega arith, (omega arith, tt))

login_refused_example : login digest key before draw wrong_body (some "old") none ≡ (
  record {
    tables = before.tables;
    attempts =
        record_auth_failure digest
          (check_auth_attempt digest attempts_init 5 "ana@example.org" none).0
          5
          "ana@example.org";
  },
  raise bad_credentials,
)
unfolding program
login_refused_example = login_refused digest key before draw wrong_body (some "old") none refl refl

login_opens_example :
    let after = login digest key before draw right_body (some "old") none in
    (after.1 ≡ ok (account_out ana "ana@example.org", "new"))
    × (current_user digest key after.0.tables 800 (some "new") ≡ ok ana)
    × (current_user digest key after.0.tables 800 (some "old") ≡ raise signed_out)
    × (current_user digest key after.0.tables 800 (some "mobile")
        ≡ current_user digest key before.tables 800 (some "mobile"))
unfolding program
login_opens_example =
    login_opens digest key before draw right_body "old" "mobile" none 800 ana refl (refl, tt) refl
      refl refl refl refl refl refl refl (omega arith)

-- An e-mail with six failures, locked for a minute.
abbrev locked : State
locked = record before {
  attempts = record attempts_init {
    entries =
        (
          email_fail "ana@example.org",
          record { expires_at = 86_400 * second; value = (6, 60 * second) },
        )
        ∷ [];
  };
}

locked-IsReady : IsReady 0 locked.attempts
unfolding Cache.enabled lookup Cache.init
locked-IsReady = record {
  valid = record { bounded = omega arith; distinct = (refl, tt) };
  on = refl;
  room = omega arith;
}

register_taken_example :
    ((register digest key before draw taken_body none none).1 ≡ raise email_taken)
    × ((register digest key before draw taken_body none none).0.tables ≡ before.tables)
    × (peek
          (register digest key before draw taken_body none none).0.attempts
          6
          (email_key digest "ana@example.org")
        ≡ peek attempts_init 6 (email_key digest "ana@example.org"))
unfolding program
register_taken_example =
    register_taken digest key before draw taken_body none none 6 (ready 2 (omega arith)) refl refl
      (omega arith)

logout_forgets_example :
    let after = logout digest key before.tables (some "old") in
    (is_ok (current_user digest key after 7 (some "old")) ≡ false)
    × (current_user digest key after 7 (some "new")
        ≡ current_user digest key before.tables 7 (some "new"))
logout_forgets_example = logout_forgets digest key before.tables 7 "old" "new" refl refl

abbrev bia : User
bia = record ana { id = "b1"; name = "Bia"; email = some "bia@example.org" }

abbrev both : State
both = record before {
  tables = record {
    users = ana ∷ bia ∷ [];
    sessions =
        record { token_hash = "old"; user_id = "a1"; expires_at = 900 * second }
        ∷ record { token_hash = "hers"; user_id = "b1"; expires_at = 900 * second }
        ∷ [];
  };
}

delete_account_forgets_example :
    let after = (delete_account digest key both draw ana secret none).0.tables in
    (current_user digest key after 7 (some "hers") ≡ ok bia → (bia.id == ana.id) ≡ false)
    × (current_user digest key both.tables 7 (some "hers") ≡ ok bia
        → (bia.id == ana.id) ≡ false
        → current_user digest key after 7 (some "hers") ≡ ok bia)
unfolding program
delete_account_forgets_example =
    delete_account_forgets digest key both draw ana secret none 7 (some "hers") bia refl

abbrev new_body : RegisterRequest
new_body = record { email = "bia@example.org"; password = wrong; name = "Bia"; theme = "light" }

abbrev registered : State
registered = (write_session (λ s. register digest key s draw new_body none none) before).0

Requests-IsValid_example : IsValid registered.tables.users
Requests-IsValid_example =
    Requests-IsValid digest key before registered
      (Requests.next before before registered (Requests.start before)
        (Request.registering before draw new_body none none refl))
      ((refl, tt), (refl, tt))
