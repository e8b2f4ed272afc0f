-- ===== src/Ast/Opcode/Strings.antt =====
-- The opcodes of include/uasm/opcodes_core.def for memory, strings, and text.
use uasm.Base.{ℕ}

abbrev pub memchr : ℕ
memchr = 314

abbrev pub memrchr : ℕ
memrchr = 315

abbrev pub memfind : ℕ
memfind = 316

abbrev pub memswap : ℕ
memswap = 317

abbrev pub memrev : ℕ
memrev = 318

abbrev pub memzero : ℕ
memzero = 319

abbrev pub memeq : ℕ
memeq = 320

abbrev pub memcount : ℕ
memcount = 321

abbrev pub strlen : ℕ
strlen = 322

abbrev pub strnlen : ℕ
strnlen = 323

abbrev pub strcmp : ℕ
strcmp = 324

abbrev pub strncmp : ℕ
strncmp = 325

abbrev pub strcasecmp : ℕ
strcasecmp = 326

abbrev pub strcpy : ℕ
strcpy = 327

abbrev pub strncpy : ℕ
strncpy = 328

abbrev pub strcat : ℕ
strcat = 329

abbrev pub strncat : ℕ
strncat = 330

abbrev pub strchr : ℕ
strchr = 331

abbrev pub strrchr : ℕ
strrchr = 332

abbrev pub strstr : ℕ
strstr = 333

abbrev pub strspn : ℕ
strspn = 334

abbrev pub strcspn : ℕ
strcspn = 335

abbrev pub strpbrk : ℕ
strpbrk = 336

abbrev pub strrev : ℕ
strrev = 337

abbrev pub strupper : ℕ
strupper = 338

abbrev pub strlower : ℕ
strlower = 339

abbrev pub utf8_decode : ℕ
utf8_decode = 340

abbrev pub utf8_encode : ℕ
utf8_encode = 341

abbrev pub utf8_len : ℕ
utf8_len = 342

abbrev pub utf8_valid : ℕ
utf8_valid = 343

abbrev pub breakpoint : ℕ
breakpoint = 344

abbrev pub assert : ℕ
assert = 345

abbrev pub assume : ℕ
assume = 346

abbrev pub expect : ℕ
expect = 347

abbrev pub prefetch : ℕ
prefetch = 348

abbrev pub hint : ℕ
hint = 349

abbrev pub dbgloc : ℕ
dbgloc = 350

abbrev pub trace : ℕ
trace = 351

abbrev pub probe : ℕ
probe = 352

abbrev pub noopt : ℕ
noopt = 353

abbrev pub sideeffect : ℕ
sideeffect = 354

abbrev pub poison : ℕ
poison = 355

abbrev pub freeze : ℕ
freeze = 356
