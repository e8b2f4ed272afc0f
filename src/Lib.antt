-- ===== src/Lib.antt =====
-- uasm: an assembler and virtual machine for a typed assembly language.
--
-- A source file is lexed and parsed into a module (src/frontend), written to and read from a `.uo`
-- object file (src/format/serializer.cpp), merged with other objects into a program by the linker
-- (src/linker/linker.cpp), and run by the interpreter (src/vm/interpreter.cpp) or compiled by the
-- code generator (src/codegen). This library models the parts that carry the program's own logic and
-- proves what makes them correct.
--
-- Which file models what:
--   Base, with Base/Tests, Lists, Bytes, Outcome: shared tests, lists, bytes and results.
--   Types, with Types/Tags: include/uasm/types.h and src/core/types.cpp.
--   Ast, with Ast/Opcode: include/uasm/ast.h, object.h, the Program of linker.h, and the numbers of the
--     opcodes of include/uasm/opcodes_core.def and opcodes_simd.def.
--   Serializer: src/format/serializer.cpp. Writer and Reader are the classes of those names, the
--     Reader as a function from the bytes left to a value and the bytes left after it; Encode is
--     writeOperand to writeUo, Decode readOperand to readUo. Words says that a reader undoes a
--     writer, RoundTrip composes that up to a whole file; Stable and Prefix treat files cut short.
--   Linker: src/linker/linker.cpp. Defs is `link`, Spec what a linked program is without the linker's
--     tables, Merging the invariant of the merge loop, Correct soundness and completeness.
--   Value: include/uasm/value.h and src/core/value.cpp. Int128 is __int128 as a pattern of 128 bits,
--     Float the operations on float and double, Defs the conversions, Conversions their round trip;
--     Parse is parseTypedValue.
--   Runtime: the exceptions of the interpreter.
--   Memory: the fields memory_, stack_, heapBlocks_ and heapBumpPtr_ of the class Interpreter in
--     src/vm/interpreter.cpp and the operations on them. Bytes reads and writes numbers in a byte
--     store, Defs and Heap are the operations, Access and Stack their results; Tiling says that the
--     blocks of the heap tile the memory in use, HeapSafety and Realloc what allocation promises,
--     Within the bounds of the stack and bump pointers. Scan, Strings and Utf8 are the loops of
--     the dispatch over ranges, strings and code points, Reversal, Exchange and Coding their results.
--   Alu: the functions on values in front of the class Interpreter in src/vm/interpreter.cpp. Arith,
--     Bits, Loops, Division, Integer, Saturating, BitManip, Convert, Float and FloatExt are the functions;
--     Numeric, Root, Modular, Signed, Saturation, Overflow, Counting and Mirror their results.
--   Extensions: include/uasm/extensions.h and src/core/extensions.cpp.
--   Frame: the struct Frame, readOperand, shouldBranch and resolveBlock of src/vm/interpreter.cpp.
--   Lexer: src/frontend/lexer.cpp and include/uasm/lexer.h. Chars is the tests and loops on
--     characters, Defs `lex` with one function for each kind of token; Rounds is about one round of
--     its loop, Correct about its tokens.
--   Vector: src/vm/vector_ops.cpp, a vector being the number of its 64 bytes. Lanes reads and writes lanes
--     and has the loops over them, Operations is laneCompare, laneBinary and laneUnary; Horizontal,
--     Shuffles and Compute are vectorCompute, Masks, Wide, WideArith and WideCompute are
--     vectorComputeWide and vectorComputeMasked; Memory is the loops of the vector loads and stores in
--     the dispatch. Splice is about the bits of a lane, Access about loops that set lanes, Yields
--     about what the lanes' operations return; Lanewise, MaskedLanes and Compaction are about the
--     lanes of results.
--   Interp: `Interpreter::call` and `run` of src/vm/interpreter.cpp. Machine is the store with the
--     frame of the running call and the monad of the actions on them; the switch over the opcode is cut
--     into groups of cases, each of which hands what is none of its own to the next: Basic, Numeric,
--     Checked, Floats, Flags, Frames, Pointers, Bitfields, Buffers, Strings and Misc, and Control for the
--     cases that choose the next instruction; Vectors is the vector instructions. Call composes them
--     into the loops over the instructions and the blocks and the recursion of `call`. Keeps, Operands,
--     Groups, Bounded, Passing and Invariant, and Vectored with the vector instructions, carry an
--     invariant of the store through every case; Linked joins the linker and the interpreter; Flagging is
--     about the flags.
--   Glob: src/util/glob.cpp. Defs is matchSegment, a position in a string being the suffix there, Spec
--     when a name matches a pattern, Rounds and Correct are about its loop; Expand is
--     expandGlob over the functions of glob_platform.h as a parameter, Chosen about its results.
--   Tests of Serializer, Linker, Value, Memory, Alu, Extensions, Frame, Lexer, Vector, Interp and Glob: the
--     results at concrete inputs.
--
-- How the code is modelled:
--   Numbers are natural numbers with the wrap-around of their width written out. A signed number is
--   its bit pattern; signed overflow of __int128, which C++ leaves undefined, wraps. A uint64_t sum
--   in a bounds check wraps as it does in the source. A std::map is an association list. The line
--   counter of `lex`, an int, is a natural number; it agrees with the source on a text of fewer than
--   2 ^ 31 - 1 newlines.
--   An exception is an error value. Where the source's behaviour is undefined, or its loop does not
--   end, the result is the error `undefined` (for the linker `out_of_bounds`).
--   The operations on float and double are a parameter, the record FloatOps, since they are the
--   compiler's and the C library's, and the functions of <cmath> are the record MathLib; no property
--   rests on what they return; strtod, which the lexer calls, is the record FloatReader,
--   and the numbers that parseTypedValue reads are the record NumberReader. The system calls and the
--   sign of memcmp are the record Host. The vector instructions are the record VectorUnit, an interface
--   between Interp/Call and what Interp/Vectors makes
--   of src/vm/vector_ops.cpp.
--   The files are lists of bytes; a file that cannot be opened is `none`.
--
-- Fuel: the loop of `ipow` and of the logarithms has 128 rounds, since each halves a 128-bit number;
-- that of `nextPow2` has 127 and that of `prevPow2` 128, since each doubles one; that of `uisqrt` has
-- as many as its argument and that of Euclid as the second operand plus one, since each lowers a
-- number below it; VSqrt on integers uses that of `uisqrt`. `call` has one number for the depth of the
-- calls and for the blocks that each call
-- runs, since a program need not end; its end is the error `out_of_fuel`. The loop of Utf8Valid has a
-- round more than there are bytes, since each passes a byte. The loop of matchSegment has
-- (length of the name + 2) * (length of the pattern + 1), since it goes back at most once for each
-- character of the name; that of `lex` has one for each character, since each round passes one. The
-- other loops run over a list or count down and need none.
--
-- Not modelled: the parser, the opcode table, the disassembler and the code generator, which the
-- development has not reached; the system calls, the walks over directories,
-- just-in-time execution, the executable writer and the command line, which are calls of the C library
-- and the operating system.
pub mod Base
pub mod Types
pub mod Ast
pub mod Serializer
pub mod Linker
pub mod Value
pub mod Runtime
pub mod Memory
pub mod Alu
pub mod Extensions
pub mod Frame
pub mod Glob
pub mod Lexer
pub mod Vector
pub mod Interp
