-- ===== src/Tests/FollowedTests.antt =====
-- app/services/followed_municipalities.py at concrete inputs.
use brasil_lens_backend.Common.{
  refl, true, false, string_eq, nat_eq, option_eq, List, [], ◌∷◌, none,
}
use brasil_lens_backend.Notifications.Dispatch.{Territory, TerritoryLevel}
use brasil_lens_backend.Followed.{Following, follow, unfollow, set_notifications}
use brasil_lens_backend.Followed.Consent.{IsConsented, IsConsented-operations}

abbrev territories : List Territory
territories =
    record {
      id = 1;
      ibge_code = "2408102";
      level = TerritoryLevel.municipality;
      name = "Natal";
      abbreviation = none;
      parent_id = none;
    }
    ∷ []

abbrev natal : Following
natal = record {
  id = 1;
  user_id = "a1";
  municipality_code = "2408102";
  created_at = 3;
  notifications_enabled = false;
  notifications_opt_in_at = none;
}

IsConsented-operations_example :
    IsConsented (follow territories (natal ∷ []) 2 9 "b2" "2408102").0
    × IsConsented (set_notifications territories (natal ∷ []) 9 "b2" "2408102" true).0
    × IsConsented (unfollow (natal ∷ []) "b2" "2408102")
IsConsented-operations_example =
    IsConsented-operations territories (natal ∷ []) 2 9 "b2" "2408102" true (refl, tt)
