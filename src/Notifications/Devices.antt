-- ===== src/Notifications/Devices.antt =====
-- The devices that receive notifications: whose an endpoint is.
use brasil_lens_backend.Common.{
  ℕ, ◌≡◌, refl, true, not, ◌&&◌, Option, none, String, string_eq, nat_eq, List, [], ◌∷◌, ◌++◌, ◌==◌,
  ==_refl, map, any_of, keep, find_first, find_first-append, if◌then◌else◌, arith, Bool-cases, inl,
  inr,
}
use brasil_lens_backend.Notifications.{PushSubscription, Store, remove_subscriptions, register}

-- The first device at an endpoint that is another account's.
abbrev pub foreign : String → String → List PushSubscription → Option PushSubscription
foreign user_id endpoint xs =
    find_first (λ x. x.endpoint == endpoint && not (x.user_id == user_id)) xs

module _ (user_id endpoint p256dh auth : String) where
  foreign-keep :
      (xs : List PushSubscription)
      → foreign user_id endpoint
          (keep (λ x. not (x.endpoint == endpoint && not (x.user_id == user_id))) xs)
        ≡ none
  foreign-keep [] = refl
  foreign-keep (x ∷ xs) = ground (arith, foreign-keep xs)

  foreign-map :
      (xs : List PushSubscription)
      → foreign user_id endpoint xs ≡ none
      → foreign user_id endpoint (
          map
            (λ x. if x.endpoint == endpoint then record x { p256dh = p256dh; auth = auth } else x)
            xs)
        ≡ none
  foreign-map [] h = refl
  foreign-map (x ∷ xs) h = ground (arith, foreign-map xs)

  found-map :
      (xs : List PushSubscription)
      → foreign user_id endpoint xs ≡ none
      → any_of (λ x. x.endpoint == endpoint) xs ≡ true
      → any_of
          (λ x.
            x.endpoint == endpoint && x.user_id == user_id && x.p256dh == p256dh && x.auth == auth)
          (map
            (λ x. if x.endpoint == endpoint then record x { p256dh = p256dh; auth = auth } else x)
            xs)
        ≡ true
  found-map [] f h = h
  found-map (x ∷ xs) f h = ground (arith, ==_refl p256dh, ==_refl auth, found-map xs)

  found_last :
      (id : ℕ) (xs : List PushSubscription)
      → any_of
          (λ x.
            x.endpoint == endpoint && x.user_id == user_id && x.p256dh == p256dh && x.auth == auth)
          (xs
            ++ record {
              id = id;
              user_id = user_id;
              endpoint = endpoint;
              p256dh = p256dh;
              auth = auth;
            }
              ∷ [])
        ≡ true
  found_last id [] = ground (arith, ==_refl endpoint, ==_refl user_id, ==_refl p256dh, ==_refl auth)
  found_last id (x ∷ xs) = ground (arith, found_last id xs)

  -- After a registration the endpoint is the account's, with the keys it gave, and no other
  -- account's.
  pub register_owner :
      (s : Store) (fresh_id : ℕ)
      → let after = register s fresh_id user_id endpoint p256dh auth in
        (foreign user_id endpoint after.subscriptions ≡ none)
        × (any_of
              (λ x.
                x.endpoint == endpoint
                && x.user_id == user_id
                && x.p256dh == p256dh
                && x.auth == auth)
              after.subscriptions
            ≡ true)
  unfolding register remove_subscriptions
  register_owner s fresh_id =
      let xs =
        keep (λ x. not (x.endpoint == endpoint && not (x.user_id == user_id))) s.subscriptions in
      let new : PushSubscription = record {
        id = fresh_id;
        user_id = user_id;
        endpoint = endpoint;
        p256dh = p256dh;
        auth = auth;
      } in
      elim (Bool-cases (any_of (λ x. x.endpoint == endpoint) xs)) [
        | inl p ↦ rw p (
          foreign-map xs (foreign-keep s.subscriptions),
          found-map xs (foreign-keep s.subscriptions) p,
        )
        | inr p ↦ rw p (
          ground (
            arith,
            find_first-append (λ x. x.endpoint == endpoint && not (x.user_id == user_id)) xs
                (new ∷ []),
            foreign-keep s.subscriptions,
            ==_refl user_id,
          ),
          found_last fresh_id xs,
        )
      ]
