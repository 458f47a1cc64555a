-- ===== src/Transport/Guards.antt =====
-- Which requests for a network are refused, and which of them depend on the area.
use brasil_lens_backend.Common.{
  Arithmetic, ℕ, ◌≡◌, Bool, false, not, ◌&&◌, ◌||◌, Option, none, some, ◌==◌, HasEq, arith,
}
use brasil_lens_backend.Errors.{is_ok}
use brasil_lens_backend.Transport.{
  Detail, BBox, Repository, Caches, detail_for, area_for, get_network,
}
use brasil_lens_backend.Transport.Layers.{
  TransportLayer, overview, detail_eq, is_line_layer, min_zoom_of,
}

module _ {A : Type 0} (r : Arithmetic A) where
  abbrev pub is_small : A → Option (BBox A) → Bool
  is_small span none = false
  is_small span (some (west, (south, (east, north)))) =
      not (r.below span (r.minus east west)) && not (r.below span (r.minus north south))

  -- The area that a request at a detail must give, if any.
  abbrev pub admits : TransportLayer → Option (Detail A) → Option (BBox A) → Bool
  admits layer none bbox = false
  admits layer (some detail) bbox =
      not (is_line_layer layer) || detail.name == overview || is_small detail.max_span bbox

  module _ ⦃e : HasEq A⦄ where
    -- A network is given exactly where the zoom reaches the layer's least one and, for lines beyond the
    -- overview, an area is given that is no wider and no taller than the detail allows; a refusal leaves
    -- the caches as they were.
    pub get_network_iff :
        (c : Caches A) (repo : Repository A) (now : ℕ) (layer : TransportLayer) (zoom : A)
        (bbox : Option (BBox A))
        → (is_ok (get_network r c repo now layer zoom bbox).1 ≡ (
            not (r.below zoom (r.literal (min_zoom_of layer) 0))
            && admits layer (detail_for r zoom) bbox))
          × (is_ok (get_network r c repo now layer zoom bbox).1 ≡ false
              → (get_network r c repo now layer zoom bbox).0 ≡ c)
    unfolding get_network area_for
    get_network_iff c repo now layer zoom none = ground arith
    get_network_iff c repo now layer zoom (some (west, (south, (east, north)))) = ground arith

    -- Ports, and lines in the overview, do not depend on the area that a request gives: whatever it is,
    -- the request has the same answer and leaves the same caches.
    pub get_network_area_free :
        (c : Caches A) (repo : Repository A) (now : ℕ) (layer : TransportLayer) (zoom : A)
        (detail : Detail A) (one other : Option (BBox A))
        → detail_for r zoom ≡ some detail
        → (is_line_layer layer && not (detail.name == overview)) ≡ false
        → get_network r c repo now layer zoom one ≡ get_network r c repo now layer zoom other
    unfolding get_network area_for
    get_network_area_free c repo now layer zoom detail one other d h = ground (arith, d, h)
