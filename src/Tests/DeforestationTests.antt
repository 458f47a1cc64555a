-- ===== src/Tests/DeforestationTests.antt =====
-- app/services/deforestation_alerts.py at concrete inputs.
use brasil_lens_backend.Common.{ℕ, ◌-◌, ◌≡◌, refl, none, some, List, [], ◌∷◌, length, All}
use brasil_lens_backend.Tests.Thousandths.{thousandths}
use brasil_lens_backend.Deforestation.{
  Text, Alert, Area, aggregate, latest_date, recent_alerts, coded_alerts,
}
use brasil_lens_backend.Deforestation.Scopes.{alerts_in, uncoded, aggregate-alerts_in}

abbrev code : Text
code = b'1' ∷ b'5' ∷ b'0' ∷ b'0' ∷ b'1' ∷ b'0' ∷ b'7' ∷ []

abbrev alert : ℕ → Text → Alert ℕ
alert day municipality = record {
  biome = [];
  view_date = day;
  area_km2 = 500;
  municipality = municipality;
  state = b'P' ∷ b'A' ∷ [];
  ibge_code = none;
  longitude = 0;
  latitude = 0;
}

abbrev areas : List (Area ℕ)
areas =
    record { ibge_code = code; name = b'A' ∷ []; state = b'P' ∷ b'A' ∷ []; area_km2 = some 2000 }
    ∷ []

abbrev older : List (Alert ℕ)
older = alert 20 (b'A' ∷ []) ∷ alert 3 (b'A' ∷ []) ∷ alert 19 (b'B' ∷ []) ∷ []

-- An alert from before the window is not counted, and a name without a territory has no code.
counted_alerts :
    (aggregate thousandths (λ t. t) (alert 18 (b'A' ∷ []) ∷ older) areas [] 0 14 []).total ≡ 3
unfolding aggregate
counted_alerts = refl

aggregate-alerts_in_example :
    let start = latest_date 18 older - (14 - 1) in
    let coded =
      coded_alerts thousandths
        (λ t. t)
        areas
        (recent_alerts start (alert 18 (b'A' ∷ []) ∷ older)) in
    let result = aggregate thousandths (λ t. t) (alert 18 (b'A' ∷ []) ∷ older) areas [] 0 14 [] in
    All (λ m. m.count ≡ alerts_in m.ibge_code coded) result.municipalities
    × All (λ m. m.count ≡ alerts_in m.ibge_code coded) result.states
    × (result.unassigned_count ≡ uncoded coded)
    × (length result.points ≡ result.total)
aggregate-alerts_in_example =
    aggregate-alerts_in thousandths (λ t. t) (alert 18 (b'A' ∷ [])) older areas [] 0 14 []
