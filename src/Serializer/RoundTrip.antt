-- ===== src/Serializer/RoundTrip.antt =====
-- `read_uo` on what `write_uo` wrote, for every program that fits the widths of the format.
use uasm.Base.{
  ℕ, ◌<◌, ◌^◌, ◌%◌, ◌≡◌, refl, ap, Bool, true, false, not, ◌==◌, List, [], ◌∷◌, ◌++◌, map, length,
  ok, arith, append-nil, All, some, if◌then◌else◌,
}
use uasm.Base.{◌∙◌, text_eq, le→leb, ◌>>=◌ as ◌>>=ᵣ◌}
use native.Mathlib.Nat.{mod-eq_of_lt}
use uasm.Types.{ValueType, type_tag, IsEnumerator}
use uasm.Types.Tags.{type_of_tag-type_tag, type_tag-lt}
use uasm.Ast.{Operand, Instruction, Block, Param, Function, Program}
use uasm.Serializer.Writer
use uasm.Serializer.Writer.{magic, version_sentinel, uo_version}
use uasm.Serializer.Reader
use uasm.Serializer.Reader.{Read, ◌>>=◌, pure}
use uasm.Serializer.Encode.{
  write_each, write_operand, write_instruction, write_param, write_block, write_function,
  write_program, write_uo,
}
use uasm.Serializer.Decode.{
  read_each, read_operand, read_operand_of, read_header, read_instruction, read_param, read_block,
  read_function, read_program, read_version, read_body, read_bytes, read_uo,
}
use uasm.Serializer.Words.{
  Reads, Reads-bind, Reads-last, Reads-u8, Reads-u16, Reads-u32, Reads-i64, Reads-f64, Reads-str,
}

-- What the fields of the format can hold.
abbrev pub FitsOperand : Operand → Type 0
FitsOperand (Operand.register r) = r < 2 ^ 32
FitsOperand (Operand.immediate_int v) = v < 2 ^ 64
FitsOperand (Operand.immediate_float v) = v < 2 ^ 64
FitsOperand (Operand.label name) = length name < 2 ^ 32
FitsOperand (Operand.symbol name) = length name < 2 ^ 32

pub record FitsInstruction (i : Instruction) : Type 0 where
  pub opcode : i.opcode < 2 ^ 16
  pub type : IsEnumerator i.type
  pub type2 : IsEnumerator i.type2
  pub dest : i.dest < 2 ^ 32
  pub operand_count : length i.operands < 2 ^ 8
  pub operands : All FitsOperand i.operands

pub record FitsBlock (b : Block) : Type 0 where
  pub label : length b.label < 2 ^ 32
  pub count : length b.instructions < 2 ^ 32
  pub instructions : All FitsInstruction b.instructions

pub record FitsFunction (f : Function) : Type 0 where
  pub name : length f.name < 2 ^ 32
  pub module_name : length f.module_name < 2 ^ 32
  pub param_count : length f.params < 2 ^ 8
  pub params : All (λ p. IsEnumerator p.type) f.params
  pub return_type : IsEnumerator f.return_type
  pub block_count : length f.blocks < 2 ^ 32
  pub blocks : All FitsBlock f.blocks

pub record FitsProgram (p : Program) : Type 0 where
  pub count : length p.functions < 2 ^ 32
  pub functions : All FitsFunction p.functions
  pub entry : p.entry_index < 2 ^ 32

-- What the format forgets: parameter names, line numbers, and that a symbol was a label.
abbrev pub strip_operand : Operand → Operand
strip_operand (Operand.label name) = Operand.symbol name
strip_operand (Operand.register r) = Operand.register r
strip_operand (Operand.immediate_int v) = Operand.immediate_int v
strip_operand (Operand.immediate_float v) = Operand.immediate_float v
strip_operand (Operand.symbol name) = Operand.symbol name

abbrev pub strip_instruction : Instruction → Instruction
strip_instruction i = record i { operands = map strip_operand i.operands; line = 0 }

abbrev pub strip_block : Block → Block
strip_block b = record b { instructions = map strip_instruction b.instructions }

abbrev pub strip_param : Param → Param
strip_param p = record p { name = [] }

abbrev pub strip_function : Function → Function
strip_function f = record f { params = map strip_param f.params; blocks = map strip_block f.blocks }

abbrev pub strip_program : Program → Program
strip_program p = record p { functions = map strip_function p.functions }

flag-lt : (b : Bool) → (if b then 1 else 0) < 2 ^ 8
flag-lt true = omega arith
flag-lt false = omega arith

not-flag : (b : Bool) → not ((if b then 1 else 0) == 0) ≡ b
not-flag true = refl
not-flag false = refl

Reads-tag : (t : ValueType) → IsEnumerator t → Reads Reader.u8 (Writer.u8 (type_tag t)) (type_tag t)
Reads-tag t h = Reads-u8 (type_tag t) (omega (arith, type_tag-lt t h))

-- A count that was truncated to 32 bits, where it fits.
Reads-count : (n : ℕ) → n < 2 ^ 32 → Reads Reader.u32 (Writer.u32 (n % 2 ^ 32)) n
Reads-count n h = rw (mod-eq_of_lt h) (Reads-u32 n h)

Reads-each :
    {A : Type 0} {r : Read A} {w : A → List ℕ} {strip : A → A} {P : A → Type 0}
    → ((a : A) → P a → Reads r (w a) (strip a))
    → (xs : List A) → All P xs
    → Reads (read_each (length xs) r) (write_each w xs) (map strip xs)
unfolding read_each write_each
Reads-each each [] h = record { on = λ rest. unfold pure in refl }
Reads-each {w = w} each (x ∷ xs) (h, hs) =
    Reads-bind _ (each x h) (Reads-last _ (Reads-each each xs hs) refl)

Reads-operand :
    (op : Operand) → FitsOperand op → Reads read_operand (write_operand op) (strip_operand op)
unfolding read_operand read_operand_of write_operand
Reads-operand (Operand.register r) h =
    Reads-bind _ (Reads-u8 0 (omega arith)) (Reads-last _ (Reads-u32 r h) refl)
Reads-operand (Operand.immediate_int v) h =
    Reads-bind _ (Reads-u8 1 (omega arith)) (Reads-last _ (Reads-i64 v h) refl)
Reads-operand (Operand.immediate_float v) h =
    Reads-bind _ (Reads-u8 2 (omega arith)) (Reads-last _ (Reads-f64 v h) refl)
Reads-operand (Operand.label name) h =
    Reads-bind _ (Reads-u8 3 (omega arith)) (Reads-last _ (Reads-str name h) refl)
Reads-operand (Operand.symbol name) h =
    Reads-bind _ (Reads-u8 3 (omega arith)) (Reads-last _ (Reads-str name h) refl)

-- The opcode and the types, in the layout of version 1.
Reads-header :
    (op : ℕ) (t t2 : ValueType)
    → op < 2 ^ 16
    → IsEnumerator t
    → IsEnumerator t2
    → Reads
        (read_header uo_version)
        (Writer.u16 (op % 2 ^ 16) ++ (Writer.u8 (type_tag t) ++ Writer.u8 (type_tag t2)))
        (op, t, t2)
unfolding read_header
Reads-header op t t2 h ht ht2 = rw (mod-eq_of_lt h) (
    Reads-bind _ (Reads-u16 op h) (
      Reads-bind _ (Reads-tag t ht) (
        Reads-last _ (Reads-tag t2 ht2)
          (cc (type_of_tag-type_tag t ht, type_of_tag-type_tag t2 ht2)))))

Reads-instruction :
    (i : Instruction)
    → FitsInstruction i
    → Reads (read_instruction uo_version) (write_instruction i) (strip_instruction i)
unfolding read_instruction write_instruction
Reads-instruction i h =
    Reads-bind _ (Reads-header i.opcode i.type i.type2 h.opcode h.type h.type2) (
      Reads-bind _ (Reads-u8 _ (flag-lt i.has_dest)) (
        Reads-bind _ (Reads-u32 i.dest h.dest) (
          Reads-bind _ (Reads-u8 (length i.operands) h.operand_count) (
            Reads-last _ (Reads-each Reads-operand i.operands h.operands)
              (cc (not-flag i.has_dest))))))

Reads-param : (p : Param) → IsEnumerator p.type → Reads read_param (write_param p) (strip_param p)
unfolding read_param write_param
Reads-param p h = Reads-last _ (Reads-tag p.type h) (cc (type_of_tag-type_tag p.type h))

Reads-block :
    (b : Block) → FitsBlock b → Reads (read_block uo_version) (write_block b) (strip_block b)
unfolding read_block write_block
Reads-block b h = Reads-bind _ (Reads-str b.label h.label) (
    Reads-bind _ (Reads-count (length b.instructions) h.count)
      (Reads-last _ (Reads-each Reads-instruction b.instructions h.instructions) refl))

Reads-function :
    (f : Function)
    → FitsFunction f
    → Reads (read_function uo_version) (write_function f) (strip_function f)
unfolding read_function write_function
Reads-function f h = Reads-bind _ (Reads-str f.name h.name) (
    Reads-bind _ (Reads-str f.module_name h.module_name) (
      Reads-bind _ (Reads-u8 _ (flag-lt f.is_exported)) (
        Reads-bind _ (Reads-u8 (length f.params) h.param_count) (
          Reads-bind _ (Reads-each {strip = strip_param} Reads-param f.params h.params) (
            Reads-bind _ (Reads-tag f.return_type h.return_type) (
              Reads-bind _ (Reads-count (length f.blocks) h.block_count) (
                Reads-last _ (Reads-each Reads-block f.blocks h.blocks) (
                  cc (
                    type_of_tag-type_tag f.return_type h.return_type,
                    not-flag f.is_exported,
                  )))))))))

pub Reads-program :
    (p : Program)
    → FitsProgram p
    → Reads (read_program uo_version) (write_program p) (strip_program p)
unfolding read_program write_program
Reads-program p h = Reads-bind _ (Reads-count (length p.functions) h.count) (
    Reads-bind _ (Reads-each Reads-function p.functions h.functions)
      (Reads-last _ (Reads-u32 p.entry_index h.entry) refl))

-- The bytes in front of the program in a file of the current version.
unfoldable pub file_head : List ℕ → List ℕ
unfolding Writer.u32
file_head body = magic ++ (Writer.u32 version_sentinel ++ (Writer.u32 uo_version ++ body))

-- Behind that head the file reads as the program reads.
pub read_uo-file_head :
    (body : List ℕ)
    → read_uo (some (file_head body)) ≡ (read_program uo_version body >>=ᵣ λ r. ok r.0)
unfolding read_uo read_bytes read_body read_version file_head text_eq
read_uo-file_head body = rw (le→leb 6 (length (file_head body)) (omega arith))

-- For a program whose counts, lengths and numbers fit the fields of the format, reading the bytes
-- that were written gives the program back, less what the format does not store: parameter names,
-- line numbers, and whether a name operand is a label or a symbol.
pub read_uo-write_uo :
    (p : Program) → FitsProgram p → read_uo (some (write_uo p)) ≡ ok (strip_program p)
unfolding write_uo file_head
read_uo-write_uo p h =
    read_uo-file_head (write_program p)
    ∙ ap (λ r. r >>=ᵣ λ x. ok x.0) (rw append-nil at ((Reads-program p h).on []))
