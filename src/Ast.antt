-- ===== src/Ast.antt =====
-- include/uasm/ast.h, object.h and linker.h: the program's data model.
-- A `uint32_t` is a number. An `int64_t` immediate and a `double` immediate are their 64-bit
-- patterns, as the file format stores them. A `std::string` is the list of its bytes.
pub mod Opcode
use uasm.Base.{ℕ, Bool, List, Text}
use uasm.Types.{ValueType}

-- An enumerator's number; a number past the table can be read from a file.
abbrev pub Opcode : Type 0
Opcode = ℕ

-- `Operand`, with the field that its kind uses.
pub data Operand : Type 0 where
  register : ℕ → Operand
  immediate_int : ℕ → Operand
  immediate_float : ℕ → Operand
  label : Text → Operand
  symbol : Text → Operand

pub record Instruction : Type 0 where
  pub opcode : Opcode
  pub type : ValueType
  pub type2 : ValueType
  pub has_dest : Bool
  pub dest : ℕ
  pub operands : List Operand
  pub line : ℕ

pub record Block : Type 0 where
  pub label : Text
  pub instructions : List Instruction

pub record Param : Type 0 where
  pub name : Text
  pub type : ValueType

pub record Function : Type 0 where
  pub name : Text
  pub module_name : Text
  pub is_exported : Bool
  pub params : List Param
  pub return_type : ValueType
  pub blocks : List Block

pub record Module : Type 0 where
  pub name : Text
  pub functions : List Function

abbrev pub Object : Type 0
Object = Module

pub record Program : Type 0 where
  pub functions : List Function
  pub entry_index : ℕ
