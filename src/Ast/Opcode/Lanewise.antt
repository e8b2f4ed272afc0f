-- ===== src/Ast/Opcode/Lanewise.antt =====
-- The opcodes of include/uasm/opcodes_simd.def that work lane by lane.
use uasm.Base.{ℕ}

abbrev pub v_add : ℕ
v_add = 357

abbrev pub v_sub : ℕ
v_sub = 358

abbrev pub v_mul : ℕ
v_mul = 359

abbrev pub v_div : ℕ
v_div = 360

abbrev pub v_min : ℕ
v_min = 361

abbrev pub v_max : ℕ
v_max = 362

abbrev pub v_abs : ℕ
v_abs = 363

abbrev pub v_neg : ℕ
v_neg = 364

abbrev pub v_sqrt : ℕ
v_sqrt = 365

abbrev pub v_recip : ℕ
v_recip = 366

abbrev pub v_rsqrt : ℕ
v_rsqrt = 367

abbrev pub v_avg : ℕ
v_avg = 368

abbrev pub v_addsat : ℕ
v_addsat = 369

abbrev pub v_subsat : ℕ
v_subsat = 370

abbrev pub v_mulhi : ℕ
v_mulhi = 371

abbrev pub v_absdiff : ℕ
v_absdiff = 372

abbrev pub v_mla : ℕ
v_mla = 373

abbrev pub v_mls : ℕ
v_mls = 374

abbrev pub v_madd : ℕ
v_madd = 375

abbrev pub v_msub : ℕ
v_msub = 376

abbrev pub v_hadd : ℕ
v_hadd = 377

abbrev pub v_hsub : ℕ
v_hsub = 378

abbrev pub v_min3 : ℕ
v_min3 = 379

abbrev pub v_max3 : ℕ
v_max3 = 380

abbrev pub v_clamp : ℕ
v_clamp = 381

abbrev pub v_lerp : ℕ
v_lerp = 382

abbrev pub v_dot : ℕ
v_dot = 383

abbrev pub v_sum : ℕ
v_sum = 384

abbrev pub v_sum2 : ℕ
v_sum2 = 385

abbrev pub v_and : ℕ
v_and = 386

abbrev pub v_or : ℕ
v_or = 387

abbrev pub v_xor : ℕ
v_xor = 388

abbrev pub v_not : ℕ
v_not = 389

abbrev pub v_andnot : ℕ
v_andnot = 390

abbrev pub v_shl : ℕ
v_shl = 391

abbrev pub v_shr : ℕ
v_shr = 392

abbrev pub v_sar : ℕ
v_sar = 393

abbrev pub v_rotl : ℕ
v_rotl = 394

abbrev pub v_rotr : ℕ
v_rotr = 395

abbrev pub v_bitselect : ℕ
v_bitselect = 396

abbrev pub v_popcount : ℕ
v_popcount = 397

abbrev pub v_clz : ℕ
v_clz = 398

abbrev pub v_ctz : ℕ
v_ctz = 399

abbrev pub v_bswap : ℕ
v_bswap = 400

abbrev pub v_cmpeq : ℕ
v_cmpeq = 401

abbrev pub v_cmpne : ℕ
v_cmpne = 402

abbrev pub v_cmplt : ℕ
v_cmplt = 403

abbrev pub v_cmpgt : ℕ
v_cmpgt = 404

abbrev pub v_cmple : ℕ
v_cmple = 405

abbrev pub v_cmpge : ℕ
v_cmpge = 406

abbrev pub v_ucmplt : ℕ
v_ucmplt = 407

abbrev pub v_ucmpgt : ℕ
v_ucmpgt = 408

abbrev pub v_ucmple : ℕ
v_ucmple = 409

abbrev pub v_ucmpge : ℕ
v_ucmpge = 410

abbrev pub v_cmpord : ℕ
v_cmpord = 411

abbrev pub v_cmpuno : ℕ
v_cmpuno = 412
