-- ===== src/Ast/Opcode/VectorMemory.antt =====
-- The opcodes of include/uasm/opcodes_simd.def that move vectors between memory and registers, reduce, convert and test them.
use uasm.Base.{ℕ}

abbrev pub v_load : ℕ
v_load = 433

abbrev pub v_loadu : ℕ
v_loadu = 434

abbrev pub v_gather : ℕ
v_gather = 435

abbrev pub v_loadsplat : ℕ
v_loadsplat = 436

abbrev pub v_maskload : ℕ
v_maskload = 437

abbrev pub v_store : ℕ
v_store = 438

abbrev pub v_storeu : ℕ
v_storeu = 439

abbrev pub v_scatter : ℕ
v_scatter = 440

abbrev pub v_maskstore : ℕ
v_maskstore = 441

abbrev pub v_reduceadd : ℕ
v_reduceadd = 442

abbrev pub v_reducemul : ℕ
v_reducemul = 443

abbrev pub v_reducemin : ℕ
v_reducemin = 444

abbrev pub v_reducemax : ℕ
v_reducemax = 445

abbrev pub v_reduceand : ℕ
v_reduceand = 446

abbrev pub v_reduceor : ℕ
v_reduceor = 447

abbrev pub v_reducexor : ℕ
v_reducexor = 448

abbrev pub v_widenlo : ℕ
v_widenlo = 449

abbrev pub v_widenhi : ℕ
v_widenhi = 450

abbrev pub v_narrow : ℕ
v_narrow = 451

abbrev pub v_convert : ℕ
v_convert = 452

abbrev pub v_extend : ℕ
v_extend = 453

abbrev pub v_cvtfp : ℕ
v_cvtfp = 454

abbrev pub v_cvtint : ℕ
v_cvtint = 455

abbrev pub v_trunc : ℕ
v_trunc = 456

abbrev pub v_anytrue : ℕ
v_anytrue = 457

abbrev pub v_alltrue : ℕ
v_alltrue = 458

abbrev pub v_bitmask : ℕ
v_bitmask = 459

abbrev pub v_countones : ℕ
v_countones = 460

abbrev pub v_testz : ℕ
v_testz = 461

abbrev pub v_isnan : ℕ
v_isnan = 462

abbrev pub v_signbit : ℕ
v_signbit = 463

abbrev pub v_floor : ℕ
v_floor = 464

abbrev pub v_ceil : ℕ
v_ceil = 465

abbrev pub v_round : ℕ
v_round = 466

abbrev pub v_nearest : ℕ
v_nearest = 467

abbrev pub v_fmin : ℕ
v_fmin = 468

abbrev pub v_fmax : ℕ
v_fmax = 469

abbrev pub v_copysign : ℕ
v_copysign = 470

abbrev pub v_zero : ℕ
v_zero = 471

abbrev pub v_ones : ℕ
v_ones = 472

abbrev pub v_iota : ℕ
v_iota = 473

abbrev pub v_len : ℕ
v_len = 474
