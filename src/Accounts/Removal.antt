-- ===== src/Accounts/Removal.antt =====
-- What the removal of an account takes away, and what it leaves.
use brasil_lens_backend.Common.{
  ℕ, ◌≡◌, Bool, true, false, not, ◌&&◌, Option, none, some, String, string_eq, option_eq, List, [],
  ◌∷◌, ◌==◌, ==_iff, arith, Option-cases, inl, inr, find_first, find_first-holds, keep, ltb,
  is_some,
}
use brasil_lens_backend.Errors.{ok}
use brasil_lens_backend.Accounts.Users
use brasil_lens_backend.Accounts.Users.{User, UserSession, Tables, by_email, by_token}
use brasil_lens_backend.Accounts.{State, Draw, delete_account, current_user}

find_first-keep_hit :
    {A : Type 0} (p q : A → Bool) (xs : List A) (x : A)
    → find_first p xs ≡ some x
    → q x ≡ true
    → find_first p (keep q xs) ≡ some x
find_first-keep_hit p q [] x h k = cc h
find_first-keep_hit p q (y ∷ ys) x h k = ground (arith, find_first-keep_hit p q ys x)

find_first-keep_kept :
    {A : Type 0} (p q : A → Bool) (xs : List A) (x : A)
    → find_first p (keep q xs) ≡ some x
    → q x ≡ true
find_first-keep_kept p q [] x h = cc h
find_first-keep_kept p q (y ∷ ys) x h = ground (arith, find_first-keep_kept p q ys x)

-- Nobody is signed in as an account that was removed.
by_token-remove :
    (t : Tables) (now : ℕ) (i hash : String) (v : User)
    → by_token (Users.remove t i) now hash ≡ some v
    → (v.id == i) ≡ false
unfolding by_token Users.remove
by_token-remove t now i hash v h =
    elim (Option-cases (
      find_first (λ s. s.token_hash == hash && ltb now s.expires_at)
        (keep (λ s. not (s.user_id == i)) t.sessions))) [
          | inl p ↦ ground (arith, p)
          | inr (s, p) ↦ ground (
            arith,
            p,
            find_first-keep_kept (λ u. u.id == s.user_id && is_some u.email) (λ u. not (u.id == i))
                t.users v,
          )
        ]

-- Whoever else is signed in stays so.
by_token-remove_other :
    (t : Tables) (now : ℕ) (i hash : String) (v : User)
    → by_token t now hash ≡ some v
    → (v.id == i) ≡ false
    → by_token (Users.remove t i) now hash ≡ some v
unfolding by_token Users.remove
by_token-remove_other t now i hash v h ne =
    elim (Option-cases
      (find_first (λ s. s.token_hash == hash && ltb now s.expires_at) t.sessions)) [
        | inl p ↦ ground (arith, p)
        | inr (s, p) ↦
            let found : find_first (λ u. u.id == s.user_id && is_some u.email) t.users ≡ some v =
              ground (arith, p, h) in
            let same : v.id ≡ s.user_id = ground (
              arith,
              find_first-holds (λ u. u.id == s.user_id && is_some u.email) t.users v found,
              ==_iff v.id s.user_id,
            ) in
            ground (
              arith,
              ne,
              same,
              find_first-keep_hit (λ s. s.token_hash == hash && ltb now s.expires_at)
                  (λ s. not (s.user_id == i)) t.sessions s p,
              find_first-keep_hit (λ u. u.id == s.user_id && is_some u.email) (λ u. not (u.id == i))
                  t.users v found,
            )
      ]

module _ (sha256 : String → String) (scrypt : List ℕ → List ℕ → List ℕ) where
  removed_tables :
      (s : State) (d : Draw) (user : User) (password : List ℕ) (ip : Option String)
      → (delete_account sha256 scrypt s d user password ip).1 ≡ ok tt
      → (delete_account sha256 scrypt s d user password ip).0.tables ≡ Users.remove s.tables user.id
  unfolding delete_account
  removed_tables s d user password ip done = ground arith

  -- After a removal that succeeds, no token ever signs in as the account, and every token that
  -- signs in another account at that instant still does.
  pub delete_account_forgets :
      (s : State) (d : Draw) (user : User) (password : List ℕ) (ip : Option String) (now : ℕ)
      (token : Option String) (v : User)
      → (delete_account sha256 scrypt s d user password ip).1 ≡ ok tt
      → let after = (delete_account sha256 scrypt s d user password ip).0.tables in
        (current_user sha256 scrypt after now token ≡ ok v → (v.id == user.id) ≡ false)
        × (current_user sha256 scrypt s.tables now token ≡ ok v
            → (v.id == user.id) ≡ false
            → current_user sha256 scrypt after now token ≡ ok v)
  unfolding current_user
  delete_account_forgets s d user password ip now none v done =
      (λ h. ground arith, λ h ne. ground arith)
  delete_account_forgets s d user password ip now (some k) v done =
      rw (removed_tables s d user password ip done) (
        λ h. ground (arith, by_token-remove s.tables now user.id (sha256 k) v),
        λ h ne. ground (arith, by_token-remove_other s.tables now user.id (sha256 k) v),
      )
