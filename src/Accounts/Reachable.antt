-- ===== src/Accounts/Reachable.antt =====
-- The tables after any sequence of requests.
use brasil_lens_backend.Common.{
  ℕ, ◌≡◌, refl, Bool, true, false, not, ◌&&◌, Option, none, some, String, string_eq, option_eq,
  List, [], ◌∷◌, ◌++◌, map, ◌==◌, ==_iff, arith, Option-cases, Bool-cases, inl, inr, find_first,
  find_first-append, keep, is_some, if◌then◌else◌,
}
use brasil_lens_backend.Errors.{Result, ok, raise, is_ok}
use brasil_lens_backend.RateLimit.{Attempts, check_auth_attempt, clear_auth_attempts}
use brasil_lens_backend.Accounts.Users
use brasil_lens_backend.Accounts.Users.{User, UserSession, Tables, update_user}
use brasil_lens_backend.Accounts.{
  State, Draw, LoginRequest, RegisterRequest, write_session, register, login, logout,
  delete_account, update_theme, accept_terms, enter, start_session, without_old, new_user,
  terms_version,
}

-- The values of a field that has no value twice; a missing e-mail is no value.
abbrev UniqueBy : (User → User → Bool) → List User → Type 0
UniqueBy same [] = Unit
UniqueBy same (u ∷ us) = (find_first (λ v. same v u) us ≡ none) × UniqueBy same us

abbrev same_id : User → User → Bool
same_id u v = u.id == v.id

abbrev same_email : User → User → Bool
same_email u v = is_some v.email && (u.email == v.email)

-- Identifiers and e-mails name one account at most.
abbrev pub IsValid : List User → Type 0
IsValid us = UniqueBy same_id us × UniqueBy same_email us

none_kept :
    (p q : User → Bool) (us : List User) → find_first p us ≡ none → find_first p (keep q us) ≡ none
none_kept p q [] h = refl
none_kept p q (u ∷ us) h = ground (arith, none_kept p q us)

UniqueBy-keep :
    (same : User → User → Bool) (q : User → Bool) (us : List User)
    → UniqueBy same us
    → UniqueBy same (keep q us)
UniqueBy-keep same q [] h = tt
UniqueBy-keep same q (u ∷ us) h =
    ground (arith, none_kept (λ v. same v u) q us, UniqueBy-keep same q us h.1)

UniqueBy-append :
    (same : User → User → Bool) (us : List User) (u : User)
    → UniqueBy same us
    → ((v : User) → same v u ≡ false → same u v ≡ false)
    → find_first (λ v. same v u) us ≡ none
    → UniqueBy same (us ++ u ∷ [])
UniqueBy-append same [] u h sym new = (refl, tt)
UniqueBy-append same (v ∷ us) u h sym new =
    ground (
      arith,
      sym v,
      find_first-append (λ w. same w v) us (u ∷ []),
      UniqueBy-append same us u h.1 sym,
    )

-- A change of the accounts that keeps the field.
find_first-map :
    (p : User → Bool) (f : User → User) (us : List User)
    → ((u : User) → p (f u) ≡ p u)
    → find_first p us ≡ none
    → find_first p (map f us) ≡ none
find_first-map p f [] same h = refl
find_first-map p f (u ∷ us) same h = ground (arith, same u, find_first-map p f us same)

IsValid-map :
    (f : User → User) (us : List User)
    → ((u : User) → (f u).id ≡ u.id)
    → ((u : User) → (f u).email ≡ u.email)
    → IsValid us
    → IsValid (map f us)
IsValid-map f [] i e h = (tt, tt)
IsValid-map f (u ∷ us) i e h =
    let rest = IsValid-map f us i e (h.0.1, h.1.1) in
    (
      (rw (i u) (find_first-map (λ v. v.id == u.id) f us (λ v. rw (i v)) h.0.0), rest.0),
      (
        rw (e u) (
            find_first-map (λ v. is_some u.email && (v.email == u.email)) f us (λ v. rw (e v))
              h.1.0),
        rest.1,
      ),
    )

absent_email :
    (u : User) (us : List User)
    → (is_some u.email && is_some (find_first (λ v. v.email == u.email) us)) ≡ false
    → find_first (λ v. same_email v u) us ≡ none
absent_email u [] h = refl
absent_email u (v ∷ us) h = elim (Bool-cases (is_some u.email)) [
  | inl p ↦ ground (arith, p, absent_email u us)
  | inr p ↦ ground (arith, p, absent_email u us)
]

IsValid-append :
    (us : List User) (u : User)
    → find_first (λ v. v.id == u.id) us ≡ none
    → (is_some u.email && is_some (find_first (λ v. v.email == u.email) us)) ≡ false
    → IsValid us
    → IsValid (us ++ u ∷ [])
IsValid-append us u new mail h = (
  UniqueBy-append same_id us u h.0 (λ v ne. ground (arith, ==_iff u.id v.id, ==_iff v.id u.id)) new,
  UniqueBy-append same_email us u h.1
      (λ v ne. ground (arith, ==_iff u.email v.email, ==_iff v.email u.email))
      (absent_email u us mail),
)

IsValid-create :
    (t t' : Tables) (u : User)
    → find_first (λ v. v.id == u.id) t.users ≡ none
    → IsValid t.users
    → Users.create t u ≡ some t'
    → IsValid t'.users
unfolding Users.create
IsValid-create t t' u new h made =
    elim (Bool-cases (is_some u.email && is_some (find_first (λ v. v.email == u.email) t.users))) [
      | inl p ↦ ground (arith, p)
      | inr p ↦
          let same : t'.users ≡ t.users ++ u ∷ [] = ground (arith, p) in
          rw same (IsValid-append t.users u new p h)
    ]

IsValid-update :
    (t : Tables) (i : String) (f : User → User)
    → ((u : User) → (f u).id ≡ u.id)
    → ((u : User) → (f u).email ≡ u.email)
    → IsValid t.users
    → IsValid (update_user t i f).0.users
unfolding update_user
IsValid-update t i f si se h =
    IsValid-map (λ u. if u.id == i then f u else u) t.users (λ u. ground (arith, si u))
      (λ u. ground (arith, se u)) h

module _ (sha256 : String → String) (scrypt : List ℕ → List ℕ → List ℕ) where
  -- A request, with whatever the process draws for it; a new account is given an identifier that no
  -- other has. Any account may be the one that is signed in.
  pub data Request : State → State → Type 0 where
    registering :
        (s : State) (d : Draw) (body : RegisterRequest) (old ip : Option String)
        → find_first (λ v. v.id == d.fresh_id) s.tables.users ≡ none
        → Request s (write_session (λ x. register sha256 scrypt x d body old ip) s).0
    signing_in :
        (s : State) (d : Draw) (body : LoginRequest) (old ip : Option String)
        → Request s (write_session (λ x. login sha256 scrypt x d body old ip) s).0
    signing_out :
        (s : State) (token : Option String)
        → Request s (record s { tables = logout sha256 scrypt s.tables token })
    removing :
        (s : State) (d : Draw) (user : User) (password : List ℕ) (ip : Option String)
        → Request s (write_session (λ x. delete_account sha256 scrypt x d user password ip) s).0
    theming :
        (s : State) (i theme : String)
        → Request s (record s { tables = (update_theme s.tables i theme).0 })
    accepting :
        (s : State) (now : ℕ) (i : String)
        → Request s (record s { tables = (accept_terms s.tables now i).0 })

  pub data Requests : State → State → Type 0 where
    start : (s : State) → Requests s s
    next : (s s' s'' : State) → Requests s s' → Request s' s'' → Requests s s''

  -- What a rolled back session leaves is what was there.
  IsValid-write_session :
      (A : Type 0) (f : State → State × Result A) (s : State)
      → IsValid s.tables.users
      → (is_ok (f s).1 ≡ true → IsValid (f s).0.tables.users)
      → IsValid (write_session f s).0.tables.users
  unfolding write_session
  IsValid-write_session A f s h good = kept (f s) good
    where
      kept :
          (r : State × Result A)
          → (is_ok r.1 ≡ true → IsValid r.0.tables.users)
          → IsValid
              (elim r.1 as (λ x. State × Result A) [
                | ok a ↦ (r.0, ok a)
                | raise e ↦ (record r.0 { tables = s.tables }, raise e)
              ]).0.tables.users
      kept (s', ok a) g = g refl
      kept (s', raise e) g = h

  users-without_old :
      (t : Tables) (old : Option String) → (without_old sha256 scrypt t old).users ≡ t.users
  unfolding Users.remove_session
  users-without_old t none = refl
  users-without_old t (some k) = ground arith

  users-enter :
      (s : State) (c : Attempts) (d : Draw) (u : User) (old : Option String)
      → (enter sha256 scrypt s c d u old).0.tables.users ≡ s.tables.users
  unfolding enter start_session Users.add_session
  users-enter s c d u old = users-without_old s.tables old

  users-login :
      (s : State) (d : Draw) (body : LoginRequest) (old ip : Option String)
      → (login sha256 scrypt s d body old ip).0.tables.users ≡ s.tables.users
  unfolding login
  users-login s d body old ip =
      let att = (check_auth_attempt sha256 s.attempts d.monotonic body.email ip).0 in
      let after = clear_auth_attempts sha256 att d.monotonic body.email ip in
      elim (Option-cases (Users.by_email s.tables body.email)) [
        | inl p ↦ ground (arith, p)
        | inr (u, p) ↦ ground (arith, p, users-enter s after d u old)
      ]

  IsValid-register :
      (s : State) (d : Draw) (body : RegisterRequest) (old ip : Option String)
      → find_first (λ v. v.id == d.fresh_id) s.tables.users ≡ none
      → IsValid s.tables.users
      → is_ok (register sha256 scrypt s d body old ip).1 ≡ true
      → IsValid (register sha256 scrypt s d body old ip).0.tables.users
  unfolding register
  IsValid-register s d body old ip new h good =
      let user = new_user sha256 scrypt d body in
      let att = (check_auth_attempt sha256 s.attempts d.monotonic body.email ip).0 in
      let after = clear_auth_attempts sha256 att d.monotonic body.email ip in
      elim (Option-cases (Users.create s.tables user)) [
        | inl p ↦ ground (arith, p, good)
        | inr (t, p) ↦
            let same : (register sha256 scrypt s d body old ip).0.tables.users ≡ t.users =
              ground (arith, p, good, users-enter (record s { tables = t }) after d user old) in
            rw same (IsValid-create s.tables t user new h p)
      ]

  IsValid-delete_account :
      (s : State) (d : Draw) (user : User) (password : List ℕ) (ip : Option String)
      → IsValid s.tables.users
      → IsValid (delete_account sha256 scrypt s d user password ip).0.tables.users
  unfolding delete_account Users.remove
  IsValid-delete_account s d user password ip h = ground (
    arith,
    UniqueBy-keep same_id (λ u. not (u.id == user.id)) s.tables.users h.0,
    UniqueBy-keep same_email (λ u. not (u.id == user.id)) s.tables.users h.1,
  )

  IsValid-Request : (s s' : State) → Request s s' → IsValid s.tables.users → IsValid s'.tables.users
  unfolding logout Users.remove_session delete_account update_theme accept_terms update_user
      Users.set_theme Users.accept_terms
  IsValid-Request _ _ (registering s d body old ip new) h =
      IsValid-write_session _ _ s h (λ good. IsValid-register s d body old ip new h good)
  IsValid-Request _ _ (signing_in s d body old ip) h =
      IsValid-write_session _ _ s h (λ good. rw (users-login s d body old ip) h)
  IsValid-Request _ _ (signing_out s none) h = h
  IsValid-Request _ _ (signing_out s (some k)) h = rw (users-without_old s.tables (some k)) h
  IsValid-Request _ _ (removing s d user password ip) h =
      IsValid-write_session _ _ s h (λ good. IsValid-delete_account s d user password ip h)
  IsValid-Request _ _ (theming s i theme) h =
      IsValid-update s.tables i (λ u. record u { theme = theme }) (λ u. refl) (λ u. refl) h
  IsValid-Request _ _ (accepting s now i) h =
      IsValid-update s.tables i
        (λ u. record u { terms_version = some terms_version; terms_accepted_at = some now })
        (λ u. refl) (λ u. refl) h

  -- Whatever the requests, their order and their errors, identifiers and e-mails name one account
  -- at most, if they did at first and a new account is given an identifier that no other has.
  pub Requests-IsValid :
      (s s' : State) → Requests s s' → IsValid s.tables.users → IsValid s'.tables.users
  Requests-IsValid _ _ (start s) h = h
  Requests-IsValid _ _ (next s s' s'' past request) h =
      IsValid-Request s' s'' request (Requests-IsValid s s' past h)
