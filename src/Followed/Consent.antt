-- ===== src/Followed/Consent.antt =====
-- The rows of followed municipalities and the consents that they record.
use brasil_lens_backend.Common.{
  ℕ, ◌≡◌, refl, Bool, true, false, not, none, some, String, string_eq, option_eq, nat_eq, List, [],
  ◌∷◌, ◌++◌, ==_refl, map, any_of, keep, find_first, is_some, if◌then◌else◌, arith, Option-cases,
  Bool-cases, inl, inr, All, All-append,
}
use brasil_lens_backend.Errors.{Result, ok, raise, is_ok, followed_municipality_not_found}
use brasil_lens_backend.Notifications.Dispatch.{Territory, is_municipality}
use brasil_lens_backend.Followed.{
  Following, FollowedRow, is_pair, insert_following, unfollow, update_notifications,
  get_level_by_code, to_row, get_for_user, written, follow, set_notifications,
}

-- Notifications are enabled exactly where there is an instant of consent.
abbrev pub IsConsented : List Following → Type 0
IsConsented rows = All (λ f. f.notifications_enabled ≡ is_some f.notifications_opt_in_at) rows

abbrev pub can_follow : List Territory → String → Bool
can_follow territories code = elim (get_level_by_code territories code) [
  | none ↦ false
  | some level ↦ is_municipality level
]

follow_state :
    (territories : List Territory) (user_id code : String) (rows : List Following) (id now : ℕ)
    → (follow territories rows id now user_id code).0 ≡ (
        if can_follow territories code then (insert_following rows id now user_id code).0 else rows)
unfolding follow
follow_state territories user_id code rows id now = ground arith

found_any : {A : Type 0} (p : A → Bool) (xs : List A) → is_some (find_first p xs) ≡ any_of p xs
found_any p [] = refl
found_any p (x ∷ xs) = ground (arith, found_any p xs)

insert_old :
    (xs : List Following) (id now : ℕ) (user_id code : String)
    → any_of (is_pair user_id code) xs ≡ true
    → (insert_following xs id now user_id code).0 ≡ xs
unfolding insert_following
insert_old xs id now user_id code h = rw h

module _ (territories : List Territory) (rows : List Following) (now : ℕ)
    (user_id code : String) where
  written_iff :
      (rows' : List Following)
      → is_ok (written territories rows' user_id code) ≡ any_of (is_pair user_id code) rows'
  unfolding get_for_user
  written_iff rows' = ground (arith, found_any (is_pair user_id code) rows')

  inserted :
      (id : ℕ) → any_of (is_pair user_id code) (insert_following rows id now user_id code).0 ≡ true
  unfolding insert_following
  inserted id = ground (arith, last rows)
    where
      last :
          (xs : List Following)
          → any_of (is_pair user_id code) (
              xs
              ++ record {
                id = id;
                user_id = user_id;
                municipality_code = code;
                created_at = now;
                notifications_enabled = false;
                notifications_opt_in_at = none;
              }
                ∷ [])
            ≡ true
      last [] = ground (arith, ==_refl user_id, ==_refl code)
      last (x ∷ xs) = ground (arith, last xs)

  inserted_again :
      (id id' now' : ℕ)
      → (insert_following (insert_following rows id now user_id code).0 id' now' user_id code).0
        ≡ (insert_following rows id now user_id code).0
  inserted_again id id' now' = again (insert_following rows id now user_id code).0 (inserted id)
    where
      again :
          (xs : List Following)
          → any_of (is_pair user_id code) xs ≡ true
          → (insert_following xs id' now' user_id code).0 ≡ xs
      again xs h = insert_old xs id' now' user_id code h

  -- To follow succeeds exactly where the code is a municipality's, and to follow again changes
  -- nothing.
  pub follow_iff :
      (id id' now' : ℕ)
      → let after = follow territories rows id now user_id code in
        (is_ok after.1 ≡ can_follow territories code)
        × ((follow territories after.0 id' now' user_id code).0 ≡ after.0)
  unfolding follow
  follow_iff id id' now' = (
    elim (Option-cases (get_level_by_code territories code)) [
      | inl p ↦ rw (p, follow, can_follow)
      | inr (level, p) ↦ elim (Bool-cases (is_municipality level)) [
        | inl q ↦
            rw (p, q, follow, can_follow)
              (answered (insert_following rows id now user_id code) (inserted id))
        | inr q ↦ rw (p, q, follow, can_follow)
      ]
    ],
    rw
        (
          follow_state territories user_id code (follow territories rows id now user_id code).0 id'
              now',
          follow_state territories user_id code rows id now,
        )
        (twice (can_follow territories code)),
  )
    where
      twice :
          (b : Bool)
          → (if b
              then (insert_following
                  (if b then (insert_following rows id now user_id code).0 else rows)
                  id'
                  now'
                  user_id
                  code).0
              else (if b then (insert_following rows id now user_id code).0 else rows))
            ≡ (if b then (insert_following rows id now user_id code).0 else rows)
      twice true = inserted_again id id' now'
      twice false = refl

      answered :
          (x : List Following × Bool)
          → any_of (is_pair user_id code) x.0 ≡ true
          → is_ok
              (elim (written territories x.0 user_id code) as (λ y. Result (FollowedRow × Bool)) [
                | raise e ↦ raise e
                | ok row ↦ ok (row, x.1)
              ])
            ≡ true
      answered x h = ground (arith, written_iff x.0, h)

  -- A change of consent answers with the consent that was asked for where the municipality is
  -- followed, and with an error where it is not.
  pub set_notifications_lem :
      (enabled : Bool)
      → (set_notifications territories rows now user_id code enabled).1
        ≡ (elim (find_first (is_pair user_id code) rows) [
          | none ↦ raise (followed_municipality_not_found code)
          | some f ↦ ok (record (to_row territories f) { notifications_enabled = enabled })
        ])
  unfolding set_notifications update_notifications get_for_user to_row
  set_notifications_lem enabled =
      ground (arith, found_updated rows, found_any (is_pair user_id code) rows)
    where
      found_updated :
          (xs : List Following)
          → find_first (is_pair user_id code) (
              map
                (λ f.
                  if is_pair user_id code f
                  then record f {
                    notifications_enabled = enabled;
                    notifications_opt_in_at = if enabled then some now else none;
                  }
                  else f)
                xs)
            ≡ (elim (find_first (is_pair user_id code) xs) [
              | none ↦ none
              | some f ↦ some (record f {
                notifications_enabled = enabled;
                notifications_opt_in_at = if enabled then some now else none;
              })
            ])
      found_updated [] = refl
      found_updated (x ∷ xs) = ground (arith, found_updated xs)

-- However the rows are changed, a notification is enabled exactly where a consent is on record.
pub IsConsented-operations :
    (territories : List Territory) (rows : List Following) (id now : ℕ) (user_id code : String)
    (enabled : Bool)
    → IsConsented rows
    → IsConsented (follow territories rows id now user_id code).0
      × IsConsented (set_notifications territories rows now user_id code enabled).0
      × IsConsented (unfollow rows user_id code)
unfolding follow insert_following set_notifications update_notifications unfollow
IsConsented-operations territories rows id now user_id code enabled h = (
  rw (follow_state territories user_id code rows id now) (made (can_follow territories code)),
  ground (arith, updated rows h),
  kept rows h,
)
  where
    made :
        (b : Bool) → IsConsented (if b then (insert_following rows id now user_id code).0 else rows)
    made false = h
    made true = elim (Bool-cases (any_of (is_pair user_id code) rows)) [
      | inl p ↦ rw p h
      | inr p ↦ rw p (
          All-append (λ f. f.notifications_enabled ≡ is_some f.notifications_opt_in_at) rows _ h
            (refl, tt))
    ]

    kept :
        (xs : List Following)
        → IsConsented xs
        → IsConsented (keep (λ f. not (is_pair user_id code f)) xs)
    kept [] h = tt
    kept (x ∷ xs) h = ground (arith, kept xs h.1)

    updated :
        (xs : List Following)
        → IsConsented xs
        → IsConsented (
            map
              (λ f.
                if is_pair user_id code f
                then record f {
                  notifications_enabled = enabled;
                  notifications_opt_in_at = if enabled then some now else none;
                }
                else f)
              xs)
    updated [] h = tt
    updated (x ∷ xs) h = (ground (arith, h.0), updated xs h.1)
