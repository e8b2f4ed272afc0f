-- ===== src/Ast/Opcode/Core.antt =====
-- The opcodes of include/uasm/opcodes_core.def for moves, branches, memory, and mathematics.
use uasm.Base.{ℕ}

abbrev pub mov : ℕ
mov = 0

abbrev pub add : ℕ
add = 1

abbrev pub sub : ℕ
sub = 2

abbrev pub mul : ℕ
mul = 3

abbrev pub div : ℕ
div = 4

abbrev pub cmp : ℕ
cmp = 5

abbrev pub beq : ℕ
beq = 6

abbrev pub bne : ℕ
bne = 7

abbrev pub blt : ℕ
blt = 8

abbrev pub bgt : ℕ
bgt = 9

abbrev pub ble : ℕ
ble = 10

abbrev pub bge : ℕ
bge = 11

abbrev pub jmp : ℕ
jmp = 12

abbrev pub call : ℕ
call = 13

abbrev pub ret : ℕ
ret = 14

abbrev pub ret_void : ℕ
ret_void = 15

abbrev pub load : ℕ
load = 16

abbrev pub store : ℕ
store = 17

abbrev pub and : ℕ
and = 18

abbrev pub or : ℕ
or = 19

abbrev pub xor : ℕ
xor = 20

abbrev pub not : ℕ
not = 21

abbrev pub shl : ℕ
shl = 22

abbrev pub shr : ℕ
shr = 23

abbrev pub modulo : ℕ
modulo = 24

abbrev pub neg : ℕ
neg = 25

abbrev pub push : ℕ
push = 26

abbrev pub pop : ℕ
pop = 27

abbrev pub convert : ℕ
convert = 28

abbrev pub cast : ℕ
cast = 29

abbrev pub alloc : ℕ
alloc = 30

abbrev pub free : ℕ
free = 31

abbrev pub realloc : ℕ
realloc = 32

abbrev pub mem_cpy : ℕ
mem_cpy = 33

abbrev pub mem_set : ℕ
mem_set = 34

abbrev pub mem_move : ℕ
mem_move = 35

abbrev pub mem_cmp : ℕ
mem_cmp = 36

abbrev pub sqrt : ℕ
sqrt = 37

abbrev pub cbrt : ℕ
cbrt = 38

abbrev pub floor : ℕ
floor = 39

abbrev pub ceil : ℕ
ceil = 40

abbrev pub round : ℕ
round = 41

abbrev pub trunc : ℕ
trunc = 42

abbrev pub abs : ℕ
abs = 43

abbrev pub min : ℕ
min = 44

abbrev pub max : ℕ
max = 45

abbrev pub pow : ℕ
pow = 46

abbrev pub fma : ℕ
fma = 47

abbrev pub sin : ℕ
sin = 48

abbrev pub cos : ℕ
cos = 49

abbrev pub tan : ℕ
tan = 50

abbrev pub asin : ℕ
asin = 51

abbrev pub acos : ℕ
acos = 52

abbrev pub atan : ℕ
atan = 53

abbrev pub atan2 : ℕ
atan2 = 54

abbrev pub sinh : ℕ
sinh = 55

abbrev pub cosh : ℕ
cosh = 56

abbrev pub tanh : ℕ
tanh = 57

abbrev pub log : ℕ
log = 58

abbrev pub log2 : ℕ
log2 = 59

abbrev pub log10 : ℕ
log10 = 60

abbrev pub exp : ℕ
exp = 61

abbrev pub exp2 : ℕ
exp2 = 62

abbrev pub hypot : ℕ
hypot = 63

abbrev pub copysign : ℕ
copysign = 64

abbrev pub fmod : ℕ
fmod = 65
