-- ===== src/Schema.antt =====
-- The data classes of xtce_sim/definition.py, as far as the packets on the wire go. Descriptions,
-- units, calibrators and significances are left out, and so are the two floating-point types.
use xtce_sim.Prelude.{ℕ, List, Option, Bool}
use xtce_sim.Prelude.Int.{ℤ}
use xtce_sim.Prelude.Dict.{Dict}
use xtce_sim.Utf8.{Text}

-- `python_type`
pub data PythonType : Type 0 where
  uint8 uint16 uint32 uint64 int8 int16 int32 int64 string bytes : PythonType

-- An absent enumeration is an empty one: the code tests both alike.
pub record ParamInfo : Type 0 where
  pub name : Text
  pub size_bits : ℕ
  pub python_type : PythonType
  pub valid_min : Option ℤ
  pub valid_max : Option ℤ
  pub enumerations : Dict Text ℤ

pub record CommandDef : Type 0 where
  pub name : Text
  pub opcode : ℕ
  pub synthetic : Bool
  pub params : List ParamInfo

pub record FieldInfo : Type 0 where
  pub name : Text
  pub size_bits : ℕ
  pub python_type : PythonType
  pub enumerations : Dict Text ℤ

-- One item of a struct format: an integer, signed or not, of so many bytes, or "Ns".
pub data Width : Type 0 where
  w1 w2 w4 w8 : Width

pub data Item : Type 0 where
  word : Bool → Width → Item
  blob : ℕ → Item

-- A period is a number of microseconds.
pub record PacketDef : Type 0 where
  pub name : Text
  pub apid : ℕ
  pub fields : List FieldInfo
  pub struct_format : List Item
  pub period : Option ℕ

pub record SimDefinition : Type 0 where
  pub commands : List CommandDef
  pub packets : List PacketDef
