-- ===== src/Notifications/Bounds.antt =====
-- How often a delivery is sent, and how many attempts it spends, over any rounds of any dispatches.
use brasil_lens_backend.Common.{
  ℕ, ◌+◌, ◌≤◌, Option, String, string_eq, option_eq, nat_eq, List, [], ◌∷◌, arith, Option-cases,
  inl, inr,
}
use brasil_lens_backend.Notifications.{Store, Outcome, Round, Eligible, round}
use brasil_lens_backend.Notifications.Rows.{row, UniqueRows, weight}
use brasil_lens_backend.Notifications.Effects.{
  attempts_left, unsent, total, attempts_spent, sent, Effect-attempts_spent, Effect-sent,
  Effect-UniqueRows,
}
use brasil_lens_backend.Notifications.Steps.{round-Effect}

module _ (digest : String → String → Option String → List String → List String → String) where
  round-costs :
      (e x : ℕ) (s : Store) (eligible : Eligible) (r : Round)
      → UniqueRows s.deliveries
      → let res = round digest s eligible r in
        UniqueRows res.0.deliveries
        × (attempts_spent e x res.1 + weight attempts_left (row e x res.0.deliveries)
            ≤ weight attempts_left (row e x s.deliveries))
        × (sent e x res.1 + weight unsent (row e x res.0.deliveries)
            ≤ weight unsent (row e x s.deliveries))
  round-costs e x s eligible r u = elim (round-Effect digest s eligible r) [
    | inl same ↦ rw same (u, omega arith, omega arith)
    | inr (p, i, wait, effect) ↦ (
      Effect-UniqueRows s p.delivery _ u effect,
      Effect-attempts_spent e x s p.delivery _ u i (ground (arith, wait)) (ground (arith, wait))
          (ground (arith, wait)) effect,
      Effect-sent e x s p.delivery _ u i (ground (arith, wait)) effect,
    )
  ]

  -- Rounds one after the other, whichever dispatch each belongs to, and what each did.
  abbrev pub served : Store → List (Eligible × Round) → Store × List Outcome
  served s [] = (s, [])
  served s ((eligible, r) ∷ rest) =
      let (s', outcome) = round digest s eligible r in
      let (s'', outcomes) = served s' rest in (s'', outcome ∷ outcomes)

  costs :
      (e x : ℕ) (s : Store) (rs : List (Eligible × Round))
      → UniqueRows s.deliveries
      → (total (attempts_spent e x) (served s rs).1 ≤ weight attempts_left (row e x s.deliveries))
        × (total (sent e x) (served s rs).1 ≤ weight unsent (row e x s.deliveries))
  costs e x s [] u = (omega arith, omega arith)
  costs e x s ((eligible, r) ∷ rs) u =
      let (u', t, w) = round-costs e x s eligible r u in
      let (t', w') = costs e x (round digest s eligible r).0 rs u' in
      (omega (arith, t, t'), omega (arith, w, w'))

  -- Over any rounds, whatever the push service answers, a delivery is sent at most once, and at most
  -- five of its tries spend an attempt; deliveries are told apart by their primary key. A try spends
  -- one where it is delivered, finds the subscription gone or fails. A refusal of the sender, which
  -- gives the attempt back, and an error that is not the provider's spend none, and are not counted.
  -- Each round is taken to be committed.
  pub served_bounds :
      (e x : ℕ) (s : Store) (rs : List (Eligible × Round))
      → UniqueRows s.deliveries
      → (total (sent e x) (served s rs).1 ≤ 1) × (total (attempts_spent e x) (served s rs).1 ≤ 5)
  served_bounds e x s rs u =
      let (t, w) = costs e x s rs u in
      elim (Option-cases (row e x s.deliveries)) [
        | inl p ↦ (ground (arith, w, p), ground (arith, t, p))
        | inr (d, p) ↦ (ground (arith, w, p), ground (arith, t, p))
      ]
