-- ===== src/Conditions.antt =====
-- crates/eqtrigger/src/conditions.rs: the expressions that a trigger is conditioned on. An f64 is a
-- value of a type `F`, of which the parser asks nothing.
pub mod Parser
pub mod Tokens
pub mod Printer
pub mod Fuel
pub mod Stable
pub mod Steps
pub mod RoundTrip
pub mod Evaluate
pub mod Reads
mod Tests
use stonemite.Base.Text.{Text}
use stonemite.Base.{ℕ, Bool, true, false, Option, none, some, List, [], ◌∷◌}

pub data CompareOp : Type 0 where
  eq ne gt ge lt le contains : CompareOp

pub data Operand (F : Type 0) : Type 0 where
  variable : Text → Operand F
  str : Text → Operand F
  number : F → Operand F
  bool : Bool → Operand F
  null : Operand F

pub data Condition (F : Type 0) : Type 0 where
  either : Condition F → Condition F → Condition F
  both : Condition F → Condition F → Condition F
  negated : Condition F → Condition F
  compare : Operand F → CompareOp → Operand F → Condition F
  truthy : Operand F → Condition F

-- `Token` without `End`. The tokens for operands are one constructor; a list of tokens ends where
-- the source has `End`.
pub data Token (F : Type 0) : Type 0 where
  operand : Operand F → Token F
  op : CompareOp → Token F
  and_sign or_sign not_sign left_paren right_paren : Token F
