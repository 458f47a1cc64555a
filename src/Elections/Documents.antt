-- ===== src/Elections/Documents.antt =====
-- app/providers/tse.py: the JSON documents of the live results, with the keys that are read of them.
use brasil_lens_backend.Common.{List, nat_eq, option_eq, list_eq, pair_eq}
use brasil_lens_backend.Elections.Numbers.{integer_eq}
use brasil_lens_backend.Elections.Offices.{Text, office_eq}

pub record Person : Type 0 where
  pub dvt : Text
  pub vap : Text
  pub sqcand : Text
  pub nmu : Text
  pub n : Text
  pub st : Text

pub record Party : Type 0 where
  pub sg : Text
  pub n : Text
  pub cand : List Person

pub record Contest : Type 0 where
  pub cd : Text
  pub agr : List (List Party)

pub record Electorate : Type 0 where
  pub te : Text
  pub c : Text
  pub a : Text

pub record Ballots : Type 0 where
  pub tv : Text
  pub vv : Text
  pub vb : Text
  pub tvn : Text

-- The JSON of a municipality.
pub record Document : Type 0 where
  pub tf : Text
  pub cdabr : Text
  pub dt : Text
  pub t : Text
  pub dg : Text
  pub hg : Text
  pub e : Electorate
  pub v : Ballots
  pub carg : List Contest
