-- ===== src/Followed.antt =====
-- app/services/followed_municipalities.py over app/repositories/followed_municipalities.py: the
-- municipalities that an account follows, and its consent to be notified of them. The rows of
-- territories are an argument, and so is what is drawn for a new row.
pub mod Consent
use brasil_lens_backend.Common.{
  ℕ, Bool, true, false, not, ◌&&◌, Option, none, some, String, string_eq, nat_eq, option_eq, List,
  [], ◌∷◌, ◌++◌, ◌==◌, map, any_of, keep, find_first, is_some, if◌then◌else◌,
}
use brasil_lens_backend.Errors.{
  Result, ok, raise, DomainError, internal, territory_not_found, followed_municipality_not_found,
  invalid_parameter,
}
use brasil_lens_backend.Notifications.Dispatch.{Territory, TerritoryLevel, is_municipality}

pub record Following : Type 0 where
  pub id : ℕ
  pub user_id : String
  pub municipality_code : String
  pub created_at : ℕ
  pub notifications_enabled : Bool
  pub notifications_opt_in_at : Option ℕ

pub record FollowedRow : Type 0 where
  pub municipality_code : String
  pub name : Option String
  pub state_code : Option String
  pub state_name : Option String
  pub state_abbreviation : Option String
  pub followed_at : ℕ
  pub notifications_enabled : Bool

abbrev pub is_pair : String → String → Following → Bool
is_pair user_id code f = f.user_id == user_id && f.municipality_code == code

-- INSERT … ON CONFLICT (user_id, municipality_code) DO NOTHING, and whether a row was made
unfoldable pub insert_following : List Following → ℕ → ℕ → String → String → List Following × Bool
insert_following rows id now user_id code =
    if any_of (is_pair user_id code) rows then (rows, false) else (
      rows
          ++ record {
            id = id;
            user_id = user_id;
            municipality_code = code;
            created_at = now;
            notifications_enabled = false;
            notifications_opt_in_at = none;
          }
            ∷ [],
      true,
    )

unfoldable pub unfollow : List Following → String → String → List Following
unfollow rows user_id code = keep (λ f. not (is_pair user_id code f)) rows

-- UPDATE … RETURNING id, and whether a row was there
unfoldable pub update_notifications :
    List Following → ℕ → String → String → Bool → List Following × Bool
update_notifications rows now user_id code enabled = (
  map
      (λ f.
        if is_pair user_id code f
        then record f {
          notifications_enabled = enabled;
          notifications_opt_in_at = if enabled then some now else none;
        }
        else f)
      rows,
  any_of (is_pair user_id code) rows,
)

module _ (territories : List Territory) where
  unfoldable pub get_level_by_code : String → Option TerritoryLevel
  get_level_by_code code = elim (find_first (λ t. t.ibge_code == code) territories) [
    | none ↦ none
    | some t ↦ some t.level
  ]

  -- The left joins with the municipality and its state.
  unfoldable pub to_row : Following → FollowedRow
  to_row f =
      let municipality : Option Territory =
        find_first (λ t. t.ibge_code == f.municipality_code) territories in
      let state : Option Territory = elim municipality [
        | none ↦ none
        | some m ↦ find_first (λ t. some t.id == m.parent_id) territories
      ] in
      record {
        municipality_code = f.municipality_code;
        name = elim municipality [ none ↦ none | some m ↦ some m.name ];
        state_code = elim state [ none ↦ none | some t ↦ some t.ibge_code ];
        state_name = elim state [ none ↦ none | some t ↦ some t.name ];
        state_abbreviation = elim state [ none ↦ none | some t ↦ t.abbreviation ];
        followed_at = f.created_at;
        notifications_enabled = f.notifications_enabled;
      }

  unfoldable pub get_for_user : List Following → String → String → Option FollowedRow
  get_for_user rows user_id code = elim (find_first (is_pair user_id code) rows) [
    | none ↦ none
    | some f ↦ some (to_row f)
  ]

  -- The row that was just written: the assertion that it is there is an `internal` error.
  abbrev pub written : List Following → String → String → Result FollowedRow
  written rows user_id code = elim (get_for_user rows user_id code) [
    | none ↦ raise (internal "AssertionError")
    | some row ↦ ok row
  ]

  -- The code and the level that the message quotes are left out.
  abbrev pub not_municipality : DomainError
  not_municipality = invalid_parameter "Só municípios podem ser seguidos." (some "municipalityCode")

  unfoldable pub follow :
      List Following → ℕ → ℕ → String → String → List Following × Result (FollowedRow × Bool)
  unfolding insert_following get_level_by_code
  follow rows id now user_id code = elim (get_level_by_code code) [
    | none ↦ (rows, raise (territory_not_found code))
    | some level ↦
        if not (is_municipality level)
        then (rows, raise not_municipality)
        else let (rows', created) = insert_following rows id now user_id code in
          (
            rows',
            elim (written rows' user_id code) [ raise e ↦ raise e | ok row ↦ ok (row, created) ],
          )
  ]

  unfoldable pub set_notifications :
      List Following → ℕ → String → String → Bool → List Following × Result FollowedRow
  unfolding update_notifications
  set_notifications rows now user_id code enabled =
      let (rows', found) = update_notifications rows now user_id code enabled in
      if not found
      then (rows', raise (followed_municipality_not_found code))
      else (rows', written rows' user_id code)
