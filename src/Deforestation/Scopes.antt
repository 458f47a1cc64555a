-- ===== src/Deforestation/Scopes.antt =====
-- What is counted of the alerts, and where.
use brasil_lens_backend.Common.{
  Arithmetic, ℕ, ◌+◌, ◌-◌, ◌≡◌, ◌∙◌, refl, Bool, true, false, Option, none, some, List, [], ◌∷◌,
  ◌==◌, ==_iff, nat_eq, list_eq, lookup, lookup-set_item, or_default, length, take, keep, map,
  if◌then◌else◌, arith, All,
}
use brasil_lens_backend.Deforestation.{
  Text, Alert, Area, Tally, add_scope, tally, empty_tally, AlertMunicipality, AlertPoint, build,
  built, point_of, latest_date, recent_alerts, coded_alerts, aggregate,
}

module _ {A : Type 0} where
  -- How often the alerts have a code as their municipality's or as the state's that it begins with.
  abbrev pub alerts_in : Text → List (Alert A × Option Text) → ℕ
  alerts_in scope [] = 0
  alerts_in scope ((alert, none) ∷ coded) = alerts_in scope coded
  alerts_in scope ((alert, some code) ∷ coded) =
      (if code == scope then 1 else 0)
      + (if take 2 code == scope then 1 else 0)
      + alerts_in scope coded

  abbrev pub uncoded : List (Alert A × Option Text) → ℕ
  uncoded [] = 0
  uncoded ((alert, none) ∷ coded) = 1 + uncoded coded
  uncoded ((alert, some code) ∷ coded) = uncoded coded

  module _ (r : Arithmetic A) (normalize : Text → Text) where
    counts-add_scope :
        (alert : Alert A) (scope other : Text) (t : Tally A)
        → or_default (lookup other (add_scope r normalize alert scope t).counts) 0
          ≡ or_default (lookup other t.counts) 0 + (if scope == other then 1 else 0)
    unfolding add_scope
    counts-add_scope alert scope other t = ground (
      arith,
      ==_iff scope other,
      lookup-set_item scope other (or_default (lookup scope t.counts) 0 + 1) t.counts,
    )

    counts-tally :
        (coded : List (Alert A × Option Text)) (t : Tally A) (scope : Text)
        → or_default (lookup scope (tally r normalize t coded).counts) 0
          ≡ or_default (lookup scope t.counts) 0 + alerts_in scope coded
    unfolding tally
    counts-tally [] t scope = omega arith
    counts-tally ((alert, none) ∷ coded) t scope =
        counts-tally coded (record t { unassigned = t.unassigned + 1 }) scope
    counts-tally ((alert, some code) ∷ coded) t scope = ground (
      arith,
      counts-add_scope alert code scope t,
      counts-add_scope alert (take 2 code) scope (add_scope r normalize alert code t),
      counts-tally coded
          (add_scope r normalize alert (take 2 code) (add_scope r normalize alert code t)) scope,
    )

    unassigned-tally :
        (coded : List (Alert A × Option Text)) (t : Tally A)
        → (tally r normalize t coded).unassigned ≡ t.unassigned + uncoded coded
    unfolding tally add_scope
    unassigned-tally [] t = omega arith
    unassigned-tally ((alert, none) ∷ coded) t =
        omega (arith, unassigned-tally coded (record t { unassigned = t.unassigned + 1 }))
    unassigned-tally ((alert, some code) ∷ coded) t =
        unassigned-tally coded
          (add_scope r normalize alert (take 2 code) (add_scope r normalize alert code t))

    abbrev IsCount : List (Alert A × Option Text) → AlertMunicipality A → Type 0
    IsCount coded m = m.count ≡ alerts_in m.ibge_code coded

    All-kept :
        (coded : List (Alert A × Option Text)) (t : Tally A) (area : Area A) (b : Bool)
        (areas : List (Area A))
        → IsCount coded (build r normalize t area)
        → All (IsCount coded) (map (build r normalize t) areas)
        → All (IsCount coded) (map (build r normalize t) (if b then area ∷ areas else areas))
    All-kept coded t area true areas h rest = (h, rest)
    All-kept coded t area false areas h rest = rest

    All-built :
        (coded : List (Alert A × Option Text)) (t : Tally A) (p : Area A → Bool)
        (areas : List (Area A))
        → ((scope : Text) → or_default (lookup scope t.counts) 0 ≡ alerts_in scope coded)
        → All (IsCount coded) (map (build r normalize t) (keep p areas))
    unfolding build
    All-built coded t p [] h = tt
    All-built coded t p (area ∷ areas) h =
        All-kept coded t area (p area) (keep p areas) (h area.ibge_code)
          (All-built coded t p areas h)

    length-map :
        (f : Alert A × Option Text → AlertPoint A) (coded : List (Alert A × Option Text))
        → length (map f coded) ≡ length coded
    length-map f [] = refl
    length-map f (x ∷ xs) = omega (arith, length-map f xs)

    length-coded :
        (areas : List (Area A)) (alerts : List (Alert A))
        → length (coded_alerts r normalize areas alerts) ≡ length alerts
    length-coded areas [] = refl
    length-coded areas (a ∷ alerts) = omega (arith, length-coded areas alerts)

    -- Of the alerts of the last days, counted from the latest: each municipality and each state that is
    -- listed has the count of those that have its code, as a municipality's or as the state's that it
    -- begins with; those without a code are counted apart; and each alert of the window is a point.
    pub aggregate-alerts_in :
        (first : Alert A) (alerts : List (Alert A)) (areas states : List (Area A))
        (fetched_at days : ℕ) (biomes : List Text)
        → let start = latest_date first.view_date alerts - (days - 1) in
          let coded = coded_alerts r normalize areas (recent_alerts start (first ∷ alerts)) in
          let result = aggregate r normalize (first ∷ alerts) areas states fetched_at days biomes in
          All (λ m. m.count ≡ alerts_in m.ibge_code coded) result.municipalities
          × All (λ m. m.count ≡ alerts_in m.ibge_code coded) result.states
          × (result.unassigned_count ≡ uncoded coded)
          × (length result.points ≡ result.total)
    unfolding aggregate built lookup
    aggregate-alerts_in first alerts areas states fetched_at days biomes =
        let start = latest_date first.view_date alerts - (days - 1) in
        let coded : List (Alert A × Option Text) =
          coded_alerts r normalize areas (recent_alerts start (first ∷ alerts)) in
        let t : Tally A = tally r normalize empty_tally coded in
        (
          All-built coded t _ areas (λ scope. counts-tally coded empty_tally scope ∙ omega arith),
          All-built coded t _ states (λ scope. counts-tally coded empty_tally scope ∙ omega arith),
          omega (arith, unassigned-tally coded empty_tally),
          omega (
            arith,
            length-map (point_of r normalize) coded,
            length-coded areas (recent_alerts start (first ∷ alerts)),
          ),
        )
