-- ===== src/Serializer/Words.antt =====
-- Reading back a word or a string that was just written, whatever follows it.
use uasm.Base.{
  ap, ℕ, ◌<◌, ◌^◌, ◌%◌, ◌≡◌, List, ◌++◌, length, length-append, take-length_append,
  drop-length_append, ok, arith, Text, append_assoc,
}
use native.Mathlib.Nat.{mod-eq_of_lt}
use uasm.Serializer.Writer
use uasm.Serializer.Reader
use uasm.Serializer.Reader.{Read, ◌>>=◌, pure}

-- `r` reads `a` off the bytes `bs` and leaves what follows them.
pub record Reads {A : Type 0} (r : Read A) (bs : List ℕ) (a : A) : Type 0 where
  pub on : (rest : List ℕ) → r (bs ++ rest) ≡ ok (a, rest)

module _ {A B : Type 0} where
  pub Reads-bind :
      {m : Read A} (f : A → Read B) {bs cs : List ℕ} {a : A} {b : B}
      → Reads m bs a
      → Reads (f a) cs b
      → Reads (m >>= f) (bs ++ cs) b
  unfolding ◌>>=◌
  Reads-bind f {bs = bs} {cs = cs} h k = record {
    on = λ rest. rw append_assoc (rw (h.on (cs ++ rest), ◌>>=◌) (k.on rest));
  }

  pub Reads-last :
      {m : Read A} {bs : List ℕ} {a : A} (g : A → B) {b : B}
      → Reads m bs a
      → g a ≡ b
      → Reads (m >>= λ x. pure (g x)) bs b
  unfolding pure ◌>>=◌
  Reads-last g h e = record { on = λ rest. rw (h.on rest, ◌>>=◌) (ap (λ x. ok (x, rest)) e) }

pub Reads-u8 : (v : ℕ) → v < 2 ^ 8 → Reads Reader.u8 (Writer.u8 v) v
unfolding Reader.u8 Writer.u8
Reads-u8 v h = record { on = λ rest. ground arith }

pub Reads-u16 : (v : ℕ) → v < 2 ^ 16 → Reads Reader.u16 (Writer.u16 v) v
unfolding Reader.u16 Writer.u16
Reads-u16 v h = record { on = λ rest. ground arith }

pub Reads-u32 : (v : ℕ) → v < 2 ^ 32 → Reads Reader.u32 (Writer.u32 v) v
unfolding Reader.u32 Writer.u32
Reads-u32 v h = record { on = λ rest. ground arith }

pub Reads-i64 : (v : ℕ) → v < 2 ^ 64 → Reads Reader.i64 (Writer.i64 v) v
unfolding Reader.i64 Writer.i64
Reads-i64 v h = record { on = λ rest. ground arith }

pub Reads-f64 : (v : ℕ) → v < 2 ^ 64 → Reads Reader.f64 (Writer.f64 v) v
unfolding Reader.f64 Writer.f64
Reads-f64 v h = Reads-i64 v h

Reads-chars : (s : Text) → Reads (Reader.chars (length s)) s s
unfolding Reader.chars
Reads-chars s = record {
  on = λ rest. rw (take-length_append, drop-length_append) (ground (arith, length-append s rest));
}

pub Reads-str : (s : Text) → length s < 2 ^ 32 → Reads Reader.str (Writer.str s) s
unfolding Reader.str Writer.str
Reads-str s h =
    Reads-bind _ (Reads-u32 (length s % 2 ^ 32) (omega arith)) (rw (mod-eq_of_lt h) (Reads-chars s))
