-- ===== src/Accounts/Users.antt =====
-- app/repositories/users.py and app/models/user.py: the tables of accounts and sessions. Removing
-- an account removes its sessions with it, by the cascade of their foreign key.
use brasil_lens_backend.Common.{
  ℕ, ◌&&◌, not, Option, none, some, String, string_eq, option_eq, List, [], ◌∷◌, ◌++◌, ◌==◌, map,
  keep, find_first, leb, ltb, is_some, if◌then◌else◌,
}

pub record User : Type 0 where
  pub id : String
  pub name : String
  pub email : Option String
  pub password_hash : Option (List ℕ)
  pub theme : String
  pub terms_version : Option String
  pub terms_accepted_at : Option ℕ

pub record UserSession : Type 0 where
  pub token_hash : String
  pub user_id : String
  pub expires_at : ℕ

pub record Tables : Type 0 where
  pub users : List User
  pub sessions : List UserSession

unfoldable pub by_email : Tables → String → Option User
by_email t email = find_first (λ u. u.email == some email) t.users

-- INSERT … ON CONFLICT (email) DO NOTHING: `none` where the e-mail is taken
unfoldable pub create : Tables → User → Option Tables
create t user =
    if is_some user.email && is_some (find_first (λ u. u.email == user.email) t.users)
    then none
    else some (record t { users = t.users ++ user ∷ [] })

-- The join of sessions and accounts.
unfoldable pub by_token : Tables → ℕ → String → Option User
by_token t now token_hash =
    elim (find_first (λ s. s.token_hash == token_hash && ltb now s.expires_at) t.sessions) [
      | none ↦ none
      | some s ↦ find_first (λ u. u.id == s.user_id && is_some u.email) t.users
    ]

unfoldable pub add_session : Tables → ℕ → String → String → ℕ → Tables
add_session t now user_id token_hash expires = record t {
  sessions =
      keep (λ s. not (leb s.expires_at now)) t.sessions
      ++ record { token_hash = token_hash; user_id = user_id; expires_at = expires } ∷ [];
}

unfoldable pub remove_session : Tables → String → Tables
remove_session t token_hash = record t {
  sessions = keep (λ s. not (s.token_hash == token_hash)) t.sessions;
}

-- UPDATE users … WHERE id = … RETURNING
unfoldable pub update_user : Tables → String → (User → User) → Tables × Option User
update_user t user_id f =
    let users = map (λ u. if u.id == user_id then f u else u) t.users in
    (record t { users = users }, find_first (λ u. u.id == user_id) users)

unfoldable pub set_theme : Tables → String → String → Tables × Option User
unfolding update_user
set_theme t user_id theme = update_user t user_id (λ u. record u { theme = theme })

unfoldable pub accept_terms : Tables → ℕ → String → String → Tables × Option User
unfolding update_user
accept_terms t now user_id version =
    update_user t user_id
      (λ u. record u { terms_version = some version; terms_accepted_at = some now })

unfoldable pub remove : Tables → String → Tables
remove t user_id = record {
  users = keep (λ u. not (u.id == user_id)) t.users;
  sessions = keep (λ s. not (s.user_id == user_id)) t.sessions;
}
