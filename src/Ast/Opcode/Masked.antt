-- ===== src/Ast/Opcode/Masked.antt =====
-- The opcodes of include/uasm/opcodes_simd.def of the extension Simd512 from VLoadk on.
use uasm.Base.{ℕ}

abbrev pub v_loadk : ℕ
v_loadk = 570

abbrev pub v_loadz : ℕ
v_loadz = 571

abbrev pub v_gatherk : ℕ
v_gatherk = 572

abbrev pub v_compressk : ℕ
v_compressk = 573

abbrev pub v_expandk : ℕ
v_expandk = 574

abbrev pub v_expandload : ℕ
v_expandload = 575

abbrev pub v_storek : ℕ
v_storek = 576

abbrev pub v_scatterk : ℕ
v_scatterk = 577

abbrev pub v_compressstore : ℕ
v_compressstore = 578

abbrev pub v_addb : ℕ
v_addb = 579

abbrev pub v_subb : ℕ
v_subb = 580

abbrev pub v_mulb : ℕ
v_mulb = 581

abbrev pub v_divb : ℕ
v_divb = 582

abbrev pub v_fmab : ℕ
v_fmab = 583

abbrev pub v_ternlogq : ℕ
v_ternlogq = 584

abbrev pub v_ternlogd : ℕ
v_ternlogd = 585

abbrev pub v_shufi64 : ℕ
v_shufi64 = 586

abbrev pub v_shufi32 : ℕ
v_shufi32 = 587

abbrev pub v_permi64 : ℕ
v_permi64 = 588

abbrev pub v_permi32 : ℕ
v_permi32 = 589

abbrev pub v_permb : ℕ
v_permb = 590

abbrev pub v_permw : ℕ
v_permw = 591

abbrev pub v_align : ℕ
v_align = 592

abbrev pub v_alignd : ℕ
v_alignd = 593

abbrev pub v_alignq : ℕ
v_alignq = 594

abbrev pub v_conflictd : ℕ
v_conflictd = 595

abbrev pub v_conflictq : ℕ
v_conflictq = 596

abbrev pub v_lzcntd : ℕ
v_lzcntd = 597

abbrev pub v_lzcntq : ℕ
v_lzcntq = 598

abbrev pub v_popcntd : ℕ
v_popcntd = 599

abbrev pub v_popcntq : ℕ
v_popcntq = 600

abbrev pub v_popcntb : ℕ
v_popcntb = 601

abbrev pub v_popcntw : ℕ
v_popcntw = 602

abbrev pub v_rangepd : ℕ
v_rangepd = 603

abbrev pub v_rangeps : ℕ
v_rangeps = 604

abbrev pub v_reducepd : ℕ
v_reducepd = 605

abbrev pub v_reduceps : ℕ
v_reduceps = 606

abbrev pub v_scalefpd : ℕ
v_scalefpd = 607

abbrev pub v_scalefps : ℕ
v_scalefps = 608

abbrev pub v_getexppd : ℕ
v_getexppd = 609

abbrev pub v_getmantpd : ℕ
v_getmantpd = 610
