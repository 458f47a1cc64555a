-- ===== src/Notifications/Rows.antt =====
-- The rows of deliveries under their primary key, and a measure of one of them.
use brasil_lens_backend.Common.{
  ℕ, ◌+◌, ◌≤◌, ◌≡◌, refl, Bool, false, ◌&&◌, Option, none, some, string_eq, option_eq, nat_eq, List,
  [], ◌∷◌, ◌==◌, ==_iff, ==_refl, map, keep, find_first, is_some, if◌then◌else◌, arith, inl, inr,
}
use brasil_lens_backend.Notifications.{PushDelivery, Store, same_row, save}
use brasil_lens_backend.Notifications.Queue.{In}

-- The row of an event and a subscription.
abbrev pub is_row : ℕ → ℕ → PushDelivery → Bool
is_row event subscription d = d.event_id == event && d.subscription_id == subscription

abbrev pub row : ℕ → ℕ → List PushDelivery → Option PushDelivery
row event subscription ds = find_first (is_row event subscription) ds

-- The primary key.
abbrev pub UniqueRows : List PushDelivery → Type 0
UniqueRows [] = Unit
UniqueRows (d ∷ ds) = (row d.event_id d.subscription_id ds ≡ none) × UniqueRows ds

pub absent_In :
    (e x : ℕ) (d : PushDelivery) (ds : List PushDelivery)
    → row e x ds ≡ none
    → In d ds
    → is_row e x d ≡ false
absent_In e x d [] h i = absurd i
absent_In e x d (y ∷ ys) h (inl p) = rw p (ground (arith, h))
absent_In e x d (y ∷ ys) h (inr i) = absent_In e x d ys (ground (arith, h)) i

pub row-In :
    (d : PushDelivery) (ds : List PushDelivery)
    → UniqueRows ds
    → In d ds
    → row d.event_id d.subscription_id ds ≡ some d
row-In d [] u i = absurd i
row-In d (y ∷ ys) u (inl p) = rw p (ground (arith, ==_refl y.event_id, ==_refl y.subscription_id))
row-In d (y ∷ ys) u (inr i) = ground (
  arith,
  absent_In y.event_id y.subscription_id d ys u.0 i,
  ==_iff y.event_id d.event_id,
  ==_iff d.event_id y.event_id,
  ==_iff y.subscription_id d.subscription_id,
  ==_iff d.subscription_id y.subscription_id,
  row-In d ys u.1 i,
)

pub row-save :
    (e x : ℕ) (d : PushDelivery) (s : Store)
    → row e x (save s d).deliveries
      ≡ (if is_row e x d && is_some (row e x s.deliveries) then some d else row e x s.deliveries)
unfolding save
row-save e x d s = go s.deliveries
  where
    go :
        (ds : List PushDelivery)
        → row e x (map (λ y. if same_row y d then d else y) ds)
          ≡ (if is_row e x d && is_some (row e x ds) then some d else row e x ds)
    go [] = ground arith
    go (y ∷ ys) = ground (arith, go ys)

pub row-keep-none :
    (e x : ℕ) (q : PushDelivery → Bool) (ds : List PushDelivery)
    → row e x ds ≡ none
    → row e x (keep q ds) ≡ none
row-keep-none e x q [] h = refl
row-keep-none e x q (y ∷ ys) h = ground (arith, row-keep-none e x q ys)

pub UniqueRows-keep :
    (q : PushDelivery → Bool) (ds : List PushDelivery) → UniqueRows ds → UniqueRows (keep q ds)
UniqueRows-keep q [] u = tt
UniqueRows-keep q (y ∷ ys) u =
    ground (arith, row-keep-none y.event_id y.subscription_id q ys, UniqueRows-keep q ys u.1)

pub UniqueRows-save :
    (s : Store) (d : PushDelivery) → UniqueRows s.deliveries → UniqueRows (save s d).deliveries
unfolding save
UniqueRows-save s d u = go s.deliveries u
  where
    keys :
        (e x : ℕ) (ds : List PushDelivery)
        → row e x ds ≡ none
        → row e x (map (λ y. if same_row y d then d else y) ds) ≡ none
    keys e x [] h = refl
    keys e x (y ∷ ys) h = ground (
      arith,
      ==_iff y.event_id d.event_id,
      ==_iff y.subscription_id d.subscription_id,
      keys e x ys,
    )

    go :
        (ds : List PushDelivery)
        → UniqueRows ds
        → UniqueRows (map (λ y. if same_row y d then d else y) ds)
    go [] u = tt
    go (y ∷ ys) u = ground (
      arith,
      ==_iff y.event_id d.event_id,
      ==_iff y.subscription_id d.subscription_id,
      keys y.event_id y.subscription_id ys u.0,
      go ys u.1,
    )

-- A measure of one row, 0 where it is not there.
abbrev pub weight : (PushDelivery → ℕ) → Option PushDelivery → ℕ
weight w none = 0
weight w (some d) = w d

pub weight-keep :
    (w : PushDelivery → ℕ) (e x : ℕ) (q : PushDelivery → Bool) (ds : List PushDelivery)
    → UniqueRows ds
    → weight w (row e x (keep q ds)) ≤ weight w (row e x ds)
weight-keep w e x q [] u = omega arith
weight-keep w e x q (y ∷ ys) u = ground (
  arith,
  ==_iff y.event_id e,
  ==_iff y.subscription_id x,
  row-keep-none y.event_id y.subscription_id q ys u.0,
  weight-keep w e x q ys u.1,
)

-- What saving a row costs: the measure of its old state pays for the new one and a charge.
pub weight-save :
    (w : PushDelivery → ℕ) (e x c : ℕ) (s : Store) (d d' : PushDelivery)
    → UniqueRows s.deliveries
    → In d s.deliveries
    → d'.event_id ≡ d.event_id
    → d'.subscription_id ≡ d.subscription_id
    → c + w d' ≤ w d
    → (if is_row e x d then c else 0) + weight w (row e x (save s d').deliveries)
      ≤ weight w (row e x s.deliveries)
weight-save w e x c s d d' u i p q le = ground (
  arith,
  p,
  q,
  row-save e x d' s,
  row-In d s.deliveries u i,
  ==_iff d.event_id e,
  ==_iff d.subscription_id x,
)
