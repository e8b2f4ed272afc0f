-- ===== src/Ast/Opcode/Control.antt =====
-- The opcodes of include/uasm/opcodes_core.def for predicates, comparisons, and branches.
use uasm.Base.{ℕ}

abbrev pub isnan : ℕ
isnan = 194

abbrev pub isinf : ℕ
isinf = 195

abbrev pub isfinite : ℕ
isfinite = 196

abbrev pub isnormal : ℕ
isnormal = 197

abbrev pub issubnormal : ℕ
issubnormal = 198

abbrev pub signbit : ℕ
signbit = 199

abbrev pub fpclassify : ℕ
fpclassify = 200

abbrev pub nan : ℕ
nan = 201

abbrev pub inf : ℕ
inf = 202

abbrev pub switch : ℕ
switch = 203

abbrev pub select : ℕ
select = 204

abbrev pub seteq : ℕ
seteq = 205

abbrev pub setne : ℕ
setne = 206

abbrev pub setlt : ℕ
setlt = 207

abbrev pub setgt : ℕ
setgt = 208

abbrev pub setle : ℕ
setle = 209

abbrev pub setge : ℕ
setge = 210

abbrev pub setc : ℕ
setc = 211

abbrev pub setnc : ℕ
setnc = 212

abbrev pub seteqz : ℕ
seteqz = 213

abbrev pub setnez : ℕ
setnez = 214

abbrev pub cmpeq : ℕ
cmpeq = 215

abbrev pub cmpne : ℕ
cmpne = 216

abbrev pub cmplt : ℕ
cmplt = 217

abbrev pub cmpgt : ℕ
cmpgt = 218

abbrev pub cmple : ℕ
cmple = 219

abbrev pub cmpge : ℕ
cmpge = 220

abbrev pub ucmplt : ℕ
ucmplt = 221

abbrev pub ucmpgt : ℕ
ucmpgt = 222

abbrev pub ucmple : ℕ
ucmple = 223

abbrev pub ucmpge : ℕ
ucmpge = 224

abbrev pub cmpord : ℕ
cmpord = 225

abbrev pub cmpuno : ℕ
cmpuno = 226

abbrev pub brz : ℕ
brz = 227

abbrev pub brnz : ℕ
brnz = 228

abbrev pub breq : ℕ
breq = 229

abbrev pub brne : ℕ
brne = 230

abbrev pub brlt : ℕ
brlt = 231

abbrev pub brgt : ℕ
brgt = 232

abbrev pub brle : ℕ
brle = 233

abbrev pub brge : ℕ
brge = 234

abbrev pub ubrlt : ℕ
ubrlt = 235

abbrev pub ubrgt : ℕ
ubrgt = 236

abbrev pub ubrle : ℕ
ubrle = 237

abbrev pub ubrge : ℕ
ubrge = 238

abbrev pub bcarry : ℕ
bcarry = 239

abbrev pub bncarry : ℕ
bncarry = 240

abbrev pub bovf : ℕ
bovf = 241

abbrev pub bnovf : ℕ
bnovf = 242

abbrev pub tailcall : ℕ
tailcall = 243

abbrev pub callindirect : ℕ
callindirect = 244

abbrev pub trap : ℕ
trap = 245

abbrev pub unreachable : ℕ
unreachable = 246

abbrev pub abort : ℕ
abort = 247

abbrev pub nop : ℕ
nop = 248

abbrev pub enter : ℕ
enter = 249
