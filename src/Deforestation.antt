-- ===== src/Deforestation.antt =====
-- app/services/deforestation_alerts.py: the alerts of the last window, by municipality and state. Texts
-- are lists of codes, a date is its day's number, and `normalize` of app/providers/deter.py is a
-- parameter of which nothing is assumed.
pub mod Scopes
pub mod Serve
use brasil_lens_backend.Common.{
  Arithmetic, ℕ, zero, suc, ◌+◌, ◌-◌, ◌≤◌, ◌≡◌, refl, Bool, true, false, not, ◌&&◌, ◌||◌, Option,
  none, some, List, [], ◌∷◌, ◌++◌, ◌==◌, HasEq, nat_eq, list_eq, pair_eq, lookup, set_item,
  or_default, is_some, length, take, keep, map, ltb, leb, if◌then◌else◌, arith,
}
use brasil_lens_backend.Errors.{
  Result, ok, raise, DomainError, provider, no_details, is_provider_error,
}
use brasil_lens_backend.Cache
use brasil_lens_backend.Cache.{TtlCache}

abbrev pub Text : Type 0
Text = List ℕ

abbrev pub window_days : ℕ
window_days = 14

abbrev pub partial_ttl : ℕ
partial_ttl = 300

-- len(deter.BIOMES)
abbrev pub biome_count : ℕ
biome_count = 2

abbrev pub unavailable : DomainError
unavailable = provider "Alertas do INPE temporariamente indisponíveis." no_details

module _ (A : Type 0) where
  pub record Alert : Type 0 where
    pub biome : Text
    pub view_date : ℕ
    pub area_km2 : A
    pub municipality : Text
    pub state : Text
    pub ibge_code : Option Text
    pub longitude : A
    pub latitude : A

  -- A territory with its area.
  pub record Area : Type 0 where
    pub ibge_code : Text
    pub name : Text
    pub state : Text
    pub area_km2 : Option A

  pub record AlertMunicipality : Type 0 where
    pub ibge_code : Text
    pub name : Text
    pub state : Text
    pub area_km2 : Option A
    pub count : ℕ
    pub alert_km2 : A
    pub density : Option A
    pub latest_view_date : Option ℕ

  pub record AlertPoint : Type 0 where
    pub ibge_code : Option Text
    pub longitude : A
    pub latitude : A
    pub area_km2 : A
    pub view_date : ℕ
    pub municipality : Text
    pub state : Text
    pub biome : Text

  pub record DeforestationAlerts : Type 0 where
    pub window_start : Option ℕ
    pub window_end : Option ℕ
    pub days : ℕ
    pub fetched_at : ℕ
    pub total : ℕ
    pub total_km2 : A
    pub unassigned_count : ℕ
    pub biomes : List Text
    pub partial : Bool
    pub municipalities : List AlertMunicipality
    pub states : List AlertMunicipality
    pub ranked_municipalities : List AlertMunicipality
    pub points : List AlertPoint

  -- The dicts of the loop, and the alerts without a code.
  pub record Tally : Type 0 where
    pub km2 : List (Text × A)
    pub counts : List (Text × ℕ)
    pub latest : List (Text × ℕ)
    pub unassigned : ℕ

module _ {A : Type 0} where
  -- max(alert.view_date for alert in alerts)
  abbrev pub latest_date : ℕ → List (Alert A) → ℕ
  latest_date d [] = d
  latest_date d (a ∷ alerts) = latest_date (if ltb d a.view_date then a.view_date else d) alerts

  abbrev pub recent_alerts : ℕ → List (Alert A) → List (Alert A)
  recent_alerts start alerts = keep (λ alert. leb start alert.view_date) alerts

  abbrev pub empty_tally : Tally A
  empty_tally = record { km2 = []; counts = []; latest = []; unassigned = 0 }

module _ {A : Type 0} (r : Arithmetic A) (normalize : Text → Text) where
  -- _valid
  abbrev pub is_valid : Option A → Bool
  is_valid none = false
  is_valid (some area) = r.is_finite area && r.below r.zero area

  unfoldable pub by_name : List ((Text × Text) × Text) → List (Area A) → List ((Text × Text) × Text)
  by_name names [] = names
  by_name names (area ∷ areas) =
      by_name (set_item (normalize area.name, area.state) area.ibge_code names) areas

  -- alert.ibge_code or by_name.get(…)
  unfoldable pub code_of : List ((Text × Text) × Text) → Alert A → Option Text
  code_of names alert = elim alert.ibge_code [
    | none ↦ lookup (normalize alert.municipality, alert.state) names
    | some code ↦ elim code [
      | [] ↦ lookup (normalize alert.municipality, alert.state) names
      | c ∷ cs ↦ some (c ∷ cs)
    ]
  ]

  -- An alert in one of its scopes.
  unfoldable pub add_scope : Alert A → Text → Tally A → Tally A
  add_scope alert scope t = record t {
    km2 = set_item scope (r.plus (or_default (lookup scope t.km2) r.zero) alert.area_km2) t.km2;
    counts = set_item scope (or_default (lookup scope t.counts) 0 + 1) t.counts;
    latest =
        let old : ℕ = or_default (lookup scope t.latest) alert.view_date in
        set_item scope (if ltb old alert.view_date then alert.view_date else old) t.latest;
  }

  -- The loop over the alerts with their codes.
  unfoldable pub tally : Tally A → List (Alert A × Option Text) → Tally A
  unfolding add_scope
  tally t [] = t
  tally t ((alert, none) ∷ coded) = tally (record t { unassigned = t.unassigned + 1 }) coded
  tally t ((alert, some code) ∷ coded) =
      tally (add_scope alert (take 2 code) (add_scope alert code t)) coded

  unfoldable pub build : Tally A → Area A → AlertMunicipality A
  build t area =
      let km2 : A = or_default (lookup area.ibge_code t.km2) r.zero in
      record {
        ibge_code = area.ibge_code;
        name = area.name;
        state = area.state;
        area_km2 =
            if is_valid area.area_km2
            then some (r.round 3 (or_default area.area_km2 r.zero))
            else none;
        count = or_default (lookup area.ibge_code t.counts) 0;
        alert_km2 = r.round 4 km2;
        density =
            if is_valid area.area_km2
            then some (
                r.round 3
                  (r.divide (r.times km2 (r.literal 1000 0)) (or_default area.area_km2 r.zero)))
            else none;
        latest_view_date = lookup area.ibge_code t.latest;
      }

  -- The areas with alerts.
  unfoldable pub built : Tally A → List (Area A) → List (AlertMunicipality A)
  unfolding build
  built t areas =
      map (build t) (keep (λ area. ltb 0 (or_default (lookup area.ibge_code t.counts) 0)) areas)

  abbrev density_of : AlertMunicipality A → A
  density_of item = or_default item.density r.zero

  unfoldable pub insert_ranked :
      AlertMunicipality A → List (AlertMunicipality A) → List (AlertMunicipality A)
  insert_ranked item [] = item ∷ []
  insert_ranked item (other ∷ items) =
      let rest = insert_ranked item items in
      if r.below (density_of item) (density_of other) then other ∷ rest else item ∷ other ∷ items

  -- sorted(…, reverse=True)
  unfoldable pub sort_ranked : List (AlertMunicipality A) → List (AlertMunicipality A)
  unfolding insert_ranked
  sort_ranked [] = []
  sort_ranked (item ∷ items) = insert_ranked item (sort_ranked items)

  unfoldable pub point_of : Alert A × Option Text → AlertPoint A
  point_of (alert, code) = record {
    ibge_code = code;
    longitude = alert.longitude;
    latitude = alert.latitude;
    area_km2 = r.round 4 alert.area_km2;
    view_date = alert.view_date;
    municipality = alert.municipality;
    state = alert.state;
    biome = alert.biome;
  }

  abbrev pub sum_areas : A → List (Alert A) → A
  sum_areas total [] = total
  sum_areas total (alert ∷ alerts) = sum_areas (r.plus total alert.area_km2) alerts

  abbrev pub coded_alerts : List (Area A) → List (Alert A) → List (Alert A × Option Text)
  coded_alerts areas alerts = map (λ alert. (alert, code_of (by_name [] areas) alert)) alerts

  unfoldable pub aggregate :
      List (Alert A) → List (Area A) → List (Area A) → ℕ → ℕ → List Text → DeforestationAlerts A
  unfolding tally built sort_ranked point_of code_of by_name
  aggregate [] areas states fetched_at days biomes = record {
    window_start = none;
    window_end = none;
    days = days;
    fetched_at = fetched_at;
    total = 0;
    total_km2 = r.zero;
    unassigned_count = 0;
    biomes = biomes;
    partial = ltb (length biomes) biome_count;
    municipalities = [];
    states = [];
    ranked_municipalities = [];
    points = [];
  }
  aggregate (first ∷ alerts) areas states fetched_at days biomes =
      let end = latest_date first.view_date alerts in
      let start = end - (days - 1) in
      let recent : List (Alert A) = recent_alerts start (first ∷ alerts) in
      let coded : List (Alert A × Option Text) = coded_alerts areas recent in
      let t : Tally A = tally empty_tally coded in
      let municipalities : List (AlertMunicipality A) = built t areas in
      record {
        window_start = some start;
        window_end = some end;
        days = days;
        fetched_at = fetched_at;
        total = length recent;
        total_km2 = r.round 3 (sum_areas r.zero recent);
        unassigned_count = t.unassigned;
        biomes = biomes;
        partial = ltb (length biomes) biome_count;
        municipalities = municipalities;
        states = built t states;
        ranked_municipalities =
            take 5 (sort_ranked (keep (λ item. is_some item.density) municipalities));
        points = map point_of coded;
      }
