-- ===== src/Transport/Layers.antt =====
-- app/services/transport.py: the layers of the network, the zooms from which they are shown, and the texts
-- of the refusals.
use brasil_lens_backend.Common.{
  ℕ, ◌*◌, ◌≡◌, ◌↔◌, Bool, true, false, none, some, String, string_eq, List, [], ◌∷◌, ◌==◌, HasEq,
  nat_eq, option_eq, pair_eq, find_first, arith,
}
use brasil_lens_backend.Errors.{DomainError, internal, invalid_parameter}

pub data TransportLayer : Type 0 where
  road_federal : TransportLayer
  road_state : TransportLayer
  road_local : TransportLayer
  rail : TransportLayer
  waterway : TransportLayer
  port : TransportLayer

abbrev pub layer_beq : TransportLayer → TransportLayer → Bool
layer_beq road_federal road_federal = true
layer_beq road_state road_state = true
layer_beq road_local road_local = true
layer_beq rail rail = true
layer_beq waterway waterway = true
layer_beq port port = true
layer_beq _ _ = false

pub layer_beq_iff : (a b : TransportLayer) → (layer_beq a b ≡ true) ↔ (a ≡ b)
layer_beq_iff road_federal b = ground arith
layer_beq_iff road_state b = ground arith
layer_beq_iff road_local b = ground arith
layer_beq_iff rail b = ground arith
layer_beq_iff waterway b = ground arith
layer_beq_iff port b = ground arith

instance abbrev pub layer_eq : HasEq TransportLayer
layer_eq = record { same_iff = layer_beq_iff; same = layer_beq }

pub data TransportDetail : Type 0 where
  overview : TransportDetail
  regional : TransportDetail
  local : TransportDetail
  street : TransportDetail

abbrev pub detail_beq : TransportDetail → TransportDetail → Bool
detail_beq overview overview = true
detail_beq regional regional = true
detail_beq local local = true
detail_beq street street = true
detail_beq _ _ = false

pub detail_beq_iff : (a b : TransportDetail) → (detail_beq a b ≡ true) ↔ (a ≡ b)
detail_beq_iff overview b = ground arith
detail_beq_iff regional b = ground arith
detail_beq_iff local b = ground arith
detail_beq_iff street b = ground arith

instance abbrev pub detail_eq : HasEq TransportDetail
detail_eq = record { same_iff = detail_beq_iff; same = detail_beq }

pub data SourceKey : Type 0 where
  dnit : SourceKey
  ibge : SourceKey

pub record LayerInfo : Type 0 where
  pub key : TransportLayer
  pub label : String
  pub source : SourceKey
  pub min_zoom : ℕ

-- LAYERS
abbrev pub layers : List LayerInfo
layers =
    record { key = road_federal; label = "Rodovias federais"; source = dnit; min_zoom = 3 }
    ∷ record { key = road_state; label = "Rodovias estaduais"; source = ibge; min_zoom = 6 }
    ∷ record { key = road_local; label = "Rodovias locais"; source = ibge; min_zoom = 9 }
    ∷ record { key = rail; label = "Ferrovias"; source = ibge; min_zoom = 3 }
    ∷ record { key = waterway; label = "Hidrovias"; source = ibge; min_zoom = 3 }
    ∷ record { key = port; label = "Portos"; source = ibge; min_zoom = 3 }
    ∷ []

-- _MIN_ZOOM[layer]
unfoldable pub min_zoom_of : TransportLayer → ℕ
min_zoom_of layer = elim (find_first (λ info. info.key == layer) layers) [
  | none ↦ 0
  | some info ↦ info.min_zoom
]

-- layer in LINE_LAYERS
abbrev pub is_line_layer : TransportLayer → Bool
is_line_layer port = false
is_line_layer _ = true

abbrev pub max_tile_zoom : ℕ
max_tile_zoom = 16

abbrev pub network_cache_seconds : ℕ
network_cache_seconds = 24 * 60 * 60

-- The texts of the refusals.
abbrev pub too_far : DomainError
too_far = invalid_parameter "Aproxime o mapa para ver esta camada." (some "zoom")

abbrev pub no_area : DomainError
no_area = invalid_parameter "Informe a área a partir do zoom 6." (some "bbox")

abbrev pub too_wide : DomainError
too_wide = invalid_parameter "Área grande demais para esta escala." (some "bbox")

abbrev pub no_detail : DomainError
no_detail = internal "RuntimeError: coroutine raised StopIteration"

abbrev pub outside_grid : DomainError
outside_grid = invalid_parameter "Tile fora da grade do mapa." (some "tile")
