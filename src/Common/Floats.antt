-- ===== src/Common/Floats.antt =====
-- Floating-point numbers: a type that is a parameter, with its operations. Nothing is assumed of how they
-- round.
use Prim.Native.Nat.{ℕ}
use mathlib.Core.Bool.{Bool}

pub record Arithmetic (A : Type 0) : Type 0 where
  pub zero : A
  pub one : A
  pub plus : A → A → A
  pub minus : A → A → A
  pub times : A → A → A
  pub divide : A → A → A
  pub negate : A → A
  pub absolute : A → A
  pub below : A → A → Bool
  pub at_least : A → A → Bool
  pub equal : A → A → Bool
  pub is_finite : A → Bool
  pub round : ℕ → A → A
  -- The literal of some digits with some of them after the point.
  pub literal : ℕ → ℕ → A
