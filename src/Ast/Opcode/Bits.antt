-- ===== src/Ast/Opcode/Bits.antt =====
-- The opcodes of include/uasm/opcodes_core.def for bits and integers.
use uasm.Base.{ℕ}

abbrev pub popcount : ℕ
popcount = 66

abbrev pub clz : ℕ
clz = 67

abbrev pub ctz : ℕ
ctz = 68

abbrev pub bswap : ℕ
bswap = 69

abbrev pub rotl : ℕ
rotl = 70

abbrev pub rotr : ℕ
rotr = 71

abbrev pub bitset : ℕ
bitset = 72

abbrev pub bitclear : ℕ
bitclear = 73

abbrev pub bittest : ℕ
bittest = 74

abbrev pub parity : ℕ
parity = 75

abbrev pub ffs : ℕ
ffs = 76

abbrev pub bitreverse : ℕ
bitreverse = 77

abbrev pub syscall : ℕ
syscall = 78

abbrev pub udiv : ℕ
udiv = 79

abbrev pub umod : ℕ
umod = 80

abbrev pub sar : ℕ
sar = 81

abbrev pub mulhi : ℕ
mulhi = 82

abbrev pub umulhi : ℕ
umulhi = 83

abbrev pub mulwide : ℕ
mulwide = 84

abbrev pub umulwide : ℕ
umulwide = 85

abbrev pub addc : ℕ
addc = 86

abbrev pub subb : ℕ
subb = 87

abbrev pub ucmp : ℕ
ucmp = 88

abbrev pub umin : ℕ
umin = 89

abbrev pub umax : ℕ
umax = 90

abbrev pub absdiff : ℕ
absdiff = 91

abbrev pub uabsdiff : ℕ
uabsdiff = 92

abbrev pub inc : ℕ
inc = 93

abbrev pub dec : ℕ
dec = 94

abbrev pub signum : ℕ
signum = 95

abbrev pub avg : ℕ
avg = 96

abbrev pub uavg : ℕ
uavg = 97

abbrev pub clamp : ℕ
clamp = 98

abbrev pub uclamp : ℕ
uclamp = 99

abbrev pub nand : ℕ
nand = 100

abbrev pub nor : ℕ
nor = 101

abbrev pub xnor : ℕ
xnor = 102

abbrev pub andnot : ℕ
andnot = 103

abbrev pub ornot : ℕ
ornot = 104

abbrev pub sqr : ℕ
sqr = 105

abbrev pub mla : ℕ
mla = 106

abbrev pub mls : ℕ
mls = 107

abbrev pub powi : ℕ
powi = 108

abbrev pub gcd : ℕ
gcd = 109

abbrev pub lcm : ℕ
lcm = 110

abbrev pub isqrt : ℕ
isqrt = 111

abbrev pub ilog2 : ℕ
ilog2 = 112

abbrev pub ilog10 : ℕ
ilog10 = 113

abbrev pub divceil : ℕ
divceil = 114

abbrev pub divfloor : ℕ
divfloor = 115

abbrev pub diveuclid : ℕ
diveuclid = 116

abbrev pub modeuclid : ℕ
modeuclid = 117

abbrev pub alignup : ℕ
alignup = 118

abbrev pub aligndown : ℕ
aligndown = 119

abbrev pub ispow2 : ℕ
ispow2 = 120

abbrev pub nextpow2 : ℕ
nextpow2 = 121

abbrev pub prevpow2 : ℕ
prevpow2 = 122

abbrev pub addsat : ℕ
addsat = 123

abbrev pub subsat : ℕ
subsat = 124

abbrev pub mulsat : ℕ
mulsat = 125

abbrev pub negsat : ℕ
negsat = 126

abbrev pub shlsat : ℕ
shlsat = 127

abbrev pub uaddsat : ℕ
uaddsat = 128

abbrev pub usubsat : ℕ
usubsat = 129

abbrev pub umulsat : ℕ
umulsat = 130
