-- ===== src/Ast/Opcode/Wide.antt =====
-- The opcodes of include/uasm/opcodes_simd.def of the extension Simd256.
use uasm.Base.{ℕ}

abbrev pub v_perm128 : ℕ
v_perm128 = 475

abbrev pub v_extract128 : ℕ
v_extract128 = 476

abbrev pub v_insert128 : ℕ
v_insert128 = 477

abbrev pub v_broadcast128 : ℕ
v_broadcast128 = 478

abbrev pub v_swaphalves : ℕ
v_swaphalves = 479

abbrev pub v_lohalf : ℕ
v_lohalf = 480

abbrev pub v_hihalf : ℕ
v_hihalf = 481

abbrev pub v_combine : ℕ
v_combine = 482

abbrev pub v_permvar : ℕ
v_permvar = 483

abbrev pub v_shlv : ℕ
v_shlv = 484

abbrev pub v_shrv : ℕ
v_shrv = 485

abbrev pub v_sarv : ℕ
v_sarv = 486

abbrev pub v_rotlv : ℕ
v_rotlv = 487

abbrev pub v_rotrv : ℕ
v_rotrv = 488

abbrev pub v_mulwide : ℕ
v_mulwide = 489

abbrev pub v_maddwide : ℕ
v_maddwide = 490

abbrev pub v_dpbusd : ℕ
v_dpbusd = 491

abbrev pub v_dpwssd : ℕ
v_dpwssd = 492

abbrev pub v_sad : ℕ
v_sad = 493

abbrev pub v_mpsad : ℕ
v_mpsad = 494

abbrev pub v_compress : ℕ
v_compress = 495

abbrev pub v_expand : ℕ
v_expand = 496

abbrev pub v_conflict : ℕ
v_conflict = 497

abbrev pub v_lzcntv : ℕ
v_lzcntv = 498

abbrev pub v_popcntv : ℕ
v_popcntv = 499

abbrev pub v_ternlog : ℕ
v_ternlog = 500

abbrev pub v_fixup : ℕ
v_fixup = 501

abbrev pub v_range : ℕ
v_range = 502

abbrev pub v_scalef : ℕ
v_scalef = 503

abbrev pub v_getexp : ℕ
v_getexp = 504

abbrev pub v_getmant : ℕ
v_getmant = 505

abbrev pub v_cvtpd2ps : ℕ
v_cvtpd2ps = 506

abbrev pub v_cvtps2pd : ℕ
v_cvtps2pd = 507

abbrev pub v_cvtdq2pd : ℕ
v_cvtdq2pd = 508

abbrev pub v_cvtpd2dq : ℕ
v_cvtpd2dq = 509

abbrev pub v_cvtps2dq : ℕ
v_cvtps2dq = 510

abbrev pub v_cvtdq2ps : ℕ
v_cvtdq2ps = 511

abbrev pub v_widen256 : ℕ
v_widen256 = 512

abbrev pub v_narrow256 : ℕ
v_narrow256 = 513

abbrev pub v_reduce2 : ℕ
v_reduce2 = 514

abbrev pub v_reduce4 : ℕ
v_reduce4 = 515

abbrev pub v_interleave128 : ℕ
v_interleave128 = 516

abbrev pub v_deinterleave128 : ℕ
v_deinterleave128 = 517

abbrev pub v_blendlane : ℕ
v_blendlane = 518

abbrev pub v_signselect : ℕ
v_signselect = 519
