-- ===== src/Ast/Opcode/Checked.antt =====
-- The opcodes of include/uasm/opcodes_core.def for checked arithmetic, conversions, and floats.
use uasm.Base.{ℕ}

abbrev pub addo : ℕ
addo = 131

abbrev pub subo : ℕ
subo = 132

abbrev pub mulo : ℕ
mulo = 133

abbrev pub shlo : ℕ
shlo = 134

abbrev pub nego : ℕ
nego = 135

abbrev pub uaddo : ℕ
uaddo = 136

abbrev pub usubo : ℕ
usubo = 137

abbrev pub umulo : ℕ
umulo = 138

abbrev pub seto : ℕ
seto = 139

abbrev pub clro : ℕ
clro = 140

abbrev pub addchk : ℕ
addchk = 141

abbrev pub subchk : ℕ
subchk = 142

abbrev pub mulchk : ℕ
mulchk = 143

abbrev pub uaddchk : ℕ
uaddchk = 144

abbrev pub usubchk : ℕ
usubchk = 145

abbrev pub umulchk : ℕ
umulchk = 146

abbrev pub divchk : ℕ
divchk = 147

abbrev pub sext : ℕ
sext = 148

abbrev pub zext : ℕ
zext = 149

abbrev pub itrunc : ℕ
itrunc = 150

abbrev pub fpext : ℕ
fpext = 151

abbrev pub fptrunc : ℕ
fptrunc = 152

abbrev pub fptosi : ℕ
fptosi = 153

abbrev pub fptoui : ℕ
fptoui = 154

abbrev pub sitofp : ℕ
sitofp = 155

abbrev pub uitofp : ℕ
uitofp = 156

abbrev pub bitconv : ℕ
bitconv = 157

abbrev pub asinh : ℕ
asinh = 158

abbrev pub acosh : ℕ
acosh = 159

abbrev pub atanh : ℕ
atanh = 160

abbrev pub exp10 : ℕ
exp10 = 161

abbrev pub expm1 : ℕ
expm1 = 162

abbrev pub log1p : ℕ
log1p = 163

abbrev pub erf : ℕ
erf = 164

abbrev pub erfc : ℕ
erfc = 165

abbrev pub tgamma : ℕ
tgamma = 166

abbrev pub lgamma : ℕ
lgamma = 167

abbrev pub nextafter : ℕ
nextafter = 168

abbrev pub ldexp : ℕ
ldexp = 169

abbrev pub frexp : ℕ
frexp = 170

abbrev pub frexpe : ℕ
frexpe = 171

abbrev pub modf : ℕ
modf = 172

abbrev pub modfi : ℕ
modfi = 173

abbrev pub scalbn : ℕ
scalbn = 174

abbrev pub ilogb : ℕ
ilogb = 175

abbrev pub logb : ℕ
logb = 176

abbrev pub rint : ℕ
rint = 177

abbrev pub nearbyint : ℕ
nearbyint = 178

abbrev pub roundeven : ℕ
roundeven = 179

abbrev pub fdim : ℕ
fdim = 180

abbrev pub fmax : ℕ
fmax = 181

abbrev pub fmin : ℕ
fmin = 182

abbrev pub recip : ℕ
recip = 183

abbrev pub rsqrt : ℕ
rsqrt = 184

abbrev pub fract : ℕ
fract = 185

abbrev pub lerp : ℕ
lerp = 186

abbrev pub fclamp : ℕ
fclamp = 187

abbrev pub fsat : ℕ
fsat = 188

abbrev pub degrees : ℕ
degrees = 189

abbrev pub radians : ℕ
radians = 190

abbrev pub sinpi : ℕ
sinpi = 191

abbrev pub cospi : ℕ
cospi = 192

abbrev pub tanpi : ℕ
tanpi = 193
