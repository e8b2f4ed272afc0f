-- ===== src/Ast/Opcode/Vector.antt =====
-- The opcodes of include/uasm/opcodes_simd.def that build, move and shuffle vectors.
use uasm.Base.{ℕ}

abbrev pub v_splat : ℕ
v_splat = 413

abbrev pub v_extract : ℕ
v_extract = 414

abbrev pub v_insert : ℕ
v_insert = 415

abbrev pub v_shuffle : ℕ
v_shuffle = 416

abbrev pub v_swizzle : ℕ
v_swizzle = 417

abbrev pub v_select : ℕ
v_select = 418

abbrev pub v_zip : ℕ
v_zip = 419

abbrev pub v_unzip : ℕ
v_unzip = 420

abbrev pub v_reverse : ℕ
v_reverse = 421

abbrev pub v_rotate : ℕ
v_rotate = 422

abbrev pub v_broadcast : ℕ
v_broadcast = 423

abbrev pub v_concat : ℕ
v_concat = 424

abbrev pub v_dupelem : ℕ
v_dupelem = 425

abbrev pub v_blend : ℕ
v_blend = 426

abbrev pub v_shiftin : ℕ
v_shiftin = 427

abbrev pub v_shiftout : ℕ
v_shiftout = 428

abbrev pub v_packs : ℕ
v_packs = 429

abbrev pub v_packu : ℕ
v_packu = 430

abbrev pub v_unpacklo : ℕ
v_unpacklo = 431

abbrev pub v_unpackhi : ℕ
v_unpackhi = 432
