-- ===== src/Hydrography/Outage.antt =====
-- What `get_hydrography` answers when the source fails, and while it rests after that.
use brasil_lens_backend.Common.{
  Arithmetic, ◌≡◌, not, ◌&&◌, ◌||◌, List, HasEq, nat_eq, option_eq, pair_eq, is_some, arith,
}
use brasil_lens_backend.Cache
use brasil_lens_backend.Forecast.{active}
use brasil_lens_backend.Hydrography.{Box, HydroFeature}
use brasil_lens_backend.Hydrography.Serve.{
  Service, Surroundings, is_partial, fetched, assemble, respond,
}

module _ {A : Type 0} ⦃e : HasEq A⦄ (r : Arithmetic A) where
  -- A response goes to the shared cache exactly if it is complete, and it is complete exactly if the
  -- source is not at rest, gives the bodies of water and, where rivers are asked of it, those too.
  pub respond_complete :
      (s : Service A) (major_rivers : List (HydroFeature A)) (w : Surroundings A) (zoom : A)
      (area : Box A)
      → (is_partial r (respond r s major_rivers w zoom area).1
          ≡ not ((respond r s major_rivers w zoom area).2))
        × ((respond r s major_rivers w zoom area).2 ≡ (
            not (active s.ana_cooldown w.now)
            && is_some w.water_bodies
            && (not (r.at_least zoom (r.literal 6 0)) || is_some w.rivers)))
  unfolding respond fetched assemble active
  respond_complete s major_rivers w zoom area = ground arith
