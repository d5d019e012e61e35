-- ===== src/Base/Word.antt =====
-- The machine words of a 64-bit build: a `long`, a `size_t` or a pointer is its bit pattern, a
-- number below 2 ^ 64.
use Prim.Native.Nat.{ℕ, ◌+◌, ◌-◌, ◌*◌, ◌%◌, ◌^◌}
use mathlib.Core.Bool.{Bool}
use mes.Base.Tests.{ltb, leb}

abbrev pub word_mod : ℕ
word_mod = 2 ^ 64

abbrev pub wrap : ℕ → ℕ
wrap n = n % 2 ^ 64

-- -1, as a word.
abbrev pub minus_one : ℕ
minus_one = 2 ^ 64 - 1

-- The sign of the word read as a `long`.
abbrev pub is_negative : ℕ → Bool
is_negative w = leb (2 ^ 63) w

abbrev pub add_word : ℕ → ℕ → ℕ
add_word a b = wrap (a + b)

abbrev pub sub_word : ℕ → ℕ → ℕ
sub_word a b = wrap (a + (2 ^ 64 - wrap b))

abbrev pub mul_word : ℕ → ℕ → ℕ
mul_word a b = wrap (a * b)

abbrev pub neg_word : ℕ → ℕ
neg_word a = wrap (2 ^ 64 - wrap a)

-- `a < b` and `a <= b` on `long`: the order of the words once the sign bit is flipped.
abbrev pub slt : ℕ → ℕ → Bool
slt a b = ltb (wrap (a + 2 ^ 63)) (wrap (b + 2 ^ 63))

abbrev pub sle : ℕ → ℕ → Bool
sle a b = leb (wrap (a + 2 ^ 63)) (wrap (b + 2 ^ 63))
