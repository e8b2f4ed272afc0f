-- ===== src/Ast/Opcode/Frames.antt =====
-- The opcodes of include/uasm/opcodes_core.def for frames, pointers, and bit fields.
use uasm.Base.{ℕ}

abbrev pub leave : ℕ
leave = 250

abbrev pub alloca : ℕ
alloca = 251

abbrev pub getsp : ℕ
getsp = 252

abbrev pub setsp : ℕ
setsp = 253

abbrev pub getfp : ℕ
getfp = 254

abbrev pub setfp : ℕ
setfp = 255

abbrev pub getpc : ℕ
getpc = 256

abbrev pub framesize : ℕ
framesize = 257

abbrev pub stackdepth : ℕ
stackdepth = 258

abbrev pub stacksave : ℕ
stacksave = 259

abbrev pub stackrestore : ℕ
stackrestore = 260

abbrev pub stackfree : ℕ
stackfree = 261

abbrev pub pushf : ℕ
pushf = 262

abbrev pub popf : ℕ
popf = 263

abbrev pub getelementptr : ℕ
getelementptr = 264

abbrev pub ptradd : ℕ
ptradd = 265

abbrev pub ptrsub : ℕ
ptrsub = 266

abbrev pub ptrdiff : ℕ
ptrdiff = 267

abbrev pub fieldload : ℕ
fieldload = 268

abbrev pub fieldstore : ℕ
fieldstore = 269

abbrev pub arrayload : ℕ
arrayload = 270

abbrev pub arraystore : ℕ
arraystore = 271

abbrev pub ptrtoint : ℕ
ptrtoint = 272

abbrev pub inttoptr : ℕ
inttoptr = 273

abbrev pub ptreq : ℕ
ptreq = 274

abbrev pub ptrne : ℕ
ptrne = 275

abbrev pub ptrlt : ℕ
ptrlt = 276

abbrev pub ptrgt : ℕ
ptrgt = 277

abbrev pub ptrisnull : ℕ
ptrisnull = 278

abbrev pub ptralign : ℕ
ptralign = 279

abbrev pub loadv : ℕ
loadv = 280

abbrev pub storev : ℕ
storev = 281

abbrev pub loadu : ℕ
loadu = 282

abbrev pub storeu : ℕ
storeu = 283

abbrev pub bext : ℕ
bext = 284

abbrev pub bdep : ℕ
bdep = 285

abbrev pub bfextract : ℕ
bfextract = 286

abbrev pub bfinsert : ℕ
bfinsert = 287

abbrev pub bfclear : ℕ
bfclear = 288

abbrev pub bfset : ℕ
bfset = 289

abbrev pub clrsb : ℕ
clrsb = 290

abbrev pub blsi : ℕ
blsi = 291

abbrev pub blsr : ℕ
blsr = 292

abbrev pub blsmsk : ℕ
blsmsk = 293

abbrev pub shld : ℕ
shld = 294

abbrev pub shrd : ℕ
shrd = 295

abbrev pub gray : ℕ
gray = 296

abbrev pub ungray : ℕ
ungray = 297

abbrev pub lowmask : ℕ
lowmask = 298

abbrev pub himask : ℕ
himask = 299

abbrev pub bswap16 : ℕ
bswap16 = 300

abbrev pub bswap32 : ℕ
bswap32 = 301

abbrev pub bswap64 : ℕ
bswap64 = 302

abbrev pub nibbleswap : ℕ
nibbleswap = 303

abbrev pub bitinterleave : ℕ
bitinterleave = 304

abbrev pub bitdeinterleave : ℕ
bitdeinterleave = 305

abbrev pub zerocount : ℕ
zerocount = 306

abbrev pub bitselect : ℕ
bitselect = 307

abbrev pub sextbit : ℕ
sextbit = 308

abbrev pub zextbit : ℕ
zextbit = 309

abbrev pub hibit : ℕ
hibit = 310

abbrev pub lobit : ℕ
lobit = 311

abbrev pub msbmask : ℕ
msbmask = 312

abbrev pub bitrev8 : ℕ
bitrev8 = 313
