-- ===== src/Ast/Opcode/Masks.antt =====
-- The opcodes of include/uasm/opcodes_simd.def of the extension Simd512, to VTestk.
use uasm.Base.{ℕ}

abbrev pub kmov : ℕ
kmov = 520

abbrev pub kand : ℕ
kand = 521

abbrev pub kor : ℕ
kor = 522

abbrev pub kxor : ℕ
kxor = 523

abbrev pub knot : ℕ
knot = 524

abbrev pub kandn : ℕ
kandn = 525

abbrev pub kxnor : ℕ
kxnor = 526

abbrev pub kadd : ℕ
kadd = 527

abbrev pub kshiftl : ℕ
kshiftl = 528

abbrev pub kshiftr : ℕ
kshiftr = 529

abbrev pub ktest : ℕ
ktest = 530

abbrev pub kortest : ℕ
kortest = 531

abbrev pub kunpack : ℕ
kunpack = 532

abbrev pub kcvtmask : ℕ
kcvtmask = 533

abbrev pub kset : ℕ
kset = 534

abbrev pub kclr : ℕ
kclr = 535

abbrev pub kcount : ℕ
kcount = 536

abbrev pub kfirst : ℕ
kfirst = 537

abbrev pub klast : ℕ
klast = 538

abbrev pub kvalid : ℕ
kvalid = 539

abbrev pub v_addz : ℕ
v_addz = 540

abbrev pub v_addk : ℕ
v_addk = 541

abbrev pub v_subz : ℕ
v_subz = 542

abbrev pub v_subk : ℕ
v_subk = 543

abbrev pub v_mulz : ℕ
v_mulz = 544

abbrev pub v_mulk : ℕ
v_mulk = 545

abbrev pub v_divz : ℕ
v_divz = 546

abbrev pub v_divk : ℕ
v_divk = 547

abbrev pub v_minz : ℕ
v_minz = 548

abbrev pub v_mink : ℕ
v_mink = 549

abbrev pub v_maxz : ℕ
v_maxz = 550

abbrev pub v_maxk : ℕ
v_maxk = 551

abbrev pub v_sqrtz : ℕ
v_sqrtz = 552

abbrev pub v_sqrtk : ℕ
v_sqrtk = 553

abbrev pub v_absz : ℕ
v_absz = 554

abbrev pub v_absk : ℕ
v_absk = 555

abbrev pub v_negz : ℕ
v_negz = 556

abbrev pub v_negk : ℕ
v_negk = 557

abbrev pub v_fmaz : ℕ
v_fmaz = 558

abbrev pub v_fmak : ℕ
v_fmak = 559

abbrev pub v_cmpk : ℕ
v_cmpk = 560

abbrev pub v_cmpeqk : ℕ
v_cmpeqk = 561

abbrev pub v_cmpnek : ℕ
v_cmpnek = 562

abbrev pub v_cmpltk : ℕ
v_cmpltk = 563

abbrev pub v_cmpgtk : ℕ
v_cmpgtk = 564

abbrev pub v_cmplek : ℕ
v_cmplek = 565

abbrev pub v_cmpgek : ℕ
v_cmpgek = 566

abbrev pub v_ucmpltk : ℕ
v_ucmpltk = 567

abbrev pub v_ucmpgtk : ℕ
v_ucmpgtk = 568

abbrev pub v_testk : ℕ
v_testk = 569
