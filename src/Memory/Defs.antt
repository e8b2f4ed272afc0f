-- ===== src/Memory/Defs.antt =====
-- The store of the class `Interpreter` in src/vm/interpreter.cpp: `memory_`, `stack_`,
-- `stackPointer_`, `heapBlocks_` and `heapBumpPtr_`, and the helpers that use them.
-- A `uint64_t` sum wraps. An access outside the vector that the source's check lets through is
-- undefined in the source, and the error `undefined` here.
use uasm.Base.{
  ℕ, zero, suc, ◌+◌, ◌-◌, ◌%◌, ◌^◌, Bool, not, ◌&&◌, List, [], leb, ltb, ◌==◌, if◌then◌else◌, ok,
  err, ◌>>=◌, ◌>>◌, guard,
}
use Prim.Native.Nat.{compare, Ordering}
use uasm.Types.{ValueType, size_of_type}
use uasm.Value.Defs.{Value, value}
use uasm.Runtime.{RuntimeError, Run}
use uasm.Memory.Bytes.{Bytes, read_bytes, write_bytes}

-- `kMemorySize` and `kStackSize`.
abbrev pub memory_size : ℕ
memory_size = 2 ^ 20

abbrev pub stack_size : ℕ
stack_size = 2 ^ 16

pub record HeapBlock : Type 0 where
  pub offset : ℕ
  pub size : ℕ
  pub free : Bool

pub record Store : Type 0 where
  pub memory : Bytes
  pub stack : Bytes
  pub stack_pointer : ℕ
  pub heap_blocks : List HeapBlock
  pub heap_bump_ptr : ℕ

abbrev pub initial_store : Store
initial_store = record {
  memory = λ a. 0;
  stack = λ a. 0;
  stack_pointer = stack_size;
  heap_blocks = [];
  heap_bump_ptr = 0;
}

-- `addr + len > memory_.size()` in `uint64_t`, with the error that the source throws.
unfoldable pub check_bounds : RuntimeError → ℕ → ℕ → Run (Unit {0})
check_bounds e addr len =
    if ltb memory_size ((addr + len) % 2 ^ 64)
    then err e
    else if ltb memory_size (addr + len)
    then err RuntimeError.undefined
    else ok tt

unfoldable pub check_range : ℕ → ℕ → Run (Unit {0})
unfolding check_bounds
check_range addr len = check_bounds RuntimeError.memory_out_of_bounds addr len

unfoldable pub load_value : Store → ℕ → ValueType → Run Value
load_value s addr type = do
  check_bounds RuntimeError.load_out_of_bounds addr (size_of_type type)
  ok (value type (read_bytes s.memory addr (size_of_type type)))

unfoldable pub store_value : Store → ℕ → Value → Run Store
store_value s addr v = do
  check_bounds RuntimeError.store_out_of_bounds addr (size_of_type v.type)
  ok (record s { memory = write_bytes s.memory addr (size_of_type v.type) v.bits })

unfoldable pub push_value : Store → Value → Run Store
push_value s v =
    let sz = size_of_type v.type in
    if ltb s.stack_pointer sz
    then err RuntimeError.stack_overflow
    else ok (record s {
      stack_pointer = s.stack_pointer - sz;
      stack = write_bytes s.stack (s.stack_pointer - sz) sz v.bits;
    })

unfoldable pub pop_value : Store → ValueType → Run (Value × Store)
pop_value s type =
    let sz = size_of_type type in
    if ltb stack_size (s.stack_pointer + sz)
    then err RuntimeError.stack_underflow
    else ok (
      value type (read_bytes s.stack s.stack_pointer sz),
      record s { stack_pointer = s.stack_pointer + sz },
    )

-- The loop of `stringLength`, from the address `i`, with `rounds` addresses left.
unfoldable pub string_length_from : Bytes → ℕ → ℕ → Run ℕ
string_length_from mem i zero = err RuntimeError.unterminated_string
string_length_from mem i (suc rounds) =
    let rest = string_length_from mem (i + 1) rounds in
    if mem i == 0 then ok 0 else rest >>= λ n. ok (n + 1)

unfoldable pub string_length : Store → ℕ → ℕ → Run ℕ
string_length s addr cap =
    let cap' = if ltb memory_size cap then memory_size else cap in
    string_length_from s.memory addr (cap' - addr)

-- `memmove`: every byte is read before it is written.
unfoldable pub move_bytes : Bytes → ℕ → ℕ → ℕ → Bytes
move_bytes mem dst src len a =
    if leb dst a && ltb a (dst + len) then mem (src + (a - dst)) else mem a

-- The ranges have a byte in common.
unfoldable pub overlap : ℕ → ℕ → ℕ → Bool
overlap dst src len = ltb dst (src + len) && ltb src (dst + len)

-- `memRangeOp`: `memcpy` of ranges that overlap is undefined.
unfoldable pub mem_copy : Store → ℕ → ℕ → ℕ → Run Store
mem_copy s dst src len = do
  check_range dst len
  check_range src len
  guard (not (overlap dst src len)) RuntimeError.undefined
  ok (record s { memory = move_bytes s.memory dst src len })

unfoldable pub mem_move : Store → ℕ → ℕ → ℕ → Run Store
mem_move s dst src len = do
  check_range dst len
  check_range src len
  ok (record s { memory = move_bytes s.memory dst src len })

unfoldable pub mem_set : Store → ℕ → ℕ → ℕ → Run Store
mem_set s dst v len = do
  check_range dst len
  ok (record s { memory = λ a. if leb dst a && ltb a (dst + len) then v else s.memory a })

-- `memcmp`, of which the C library fixes only the sign.
unfoldable pub compare_bytes : Bytes → ℕ → ℕ → ℕ → Ordering
compare_bytes mem a b zero = Ordering.eq
compare_bytes mem a b (suc n) =
    let rest = compare_bytes mem (a + 1) (b + 1) n in
    elim (compare (mem a) (mem b)) [
      | Ordering.lt ↦ Ordering.lt
      | Ordering.gt ↦ Ordering.gt
      | Ordering.eq ↦ rest
    ]

unfoldable pub mem_cmp : Store → ℕ → ℕ → ℕ → Run Ordering
mem_cmp s a b len = do check_range a len; check_range b len; ok (compare_bytes s.memory a b len)
