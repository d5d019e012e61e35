-- ===== src/Libc/Number.antt =====
-- lib/mes/ntoab.c and lib/mes/abtol.c: numbers to text and back. A text is the list of its
-- characters before the zero byte.
pub mod Print
pub mod RoundTrip
use mes.Base.{
  ℕ, zero, suc, ◌+◌, ◌-◌, ◌*◌, ◌/◌, ◌%◌, ◌^◌, Bool, true, false, not, ◌&&◌, Option, none, some,
  List, [], ◌∷◌, ltb, leb, ◌==◌, if◌then◌else◌, is_negative, add_word, neg_word,
}
use mes.Libc.Ctype.{isspace, isnumber}

unfoldable pub digit_char : ℕ → ℕ
digit_char i = if ltb 9 i then b'a' + i - 10 else b'0' + i

-- The loop of `ntoab` before the characters `p`, for at most `k` digits.
unfoldable pub ntoab_loop : ℕ → ℕ → ℕ → List ℕ → Option (List ℕ)
ntoab_loop zero u b p = none
ntoab_loop (suc k) u b p =
    let p' = digit_char (u % b) ∷ p in
    let rest = ntoab_loop k (u / b) b p' in if u / b == 0 then some p' else rest

-- The minus sign, unless the text begins with a 0.
unfoldable pub put_sign : Bool → List ℕ → List ℕ
put_sign sign [] = []
put_sign sign (c ∷ p) = if sign && not (c == b'0') then b'-' ∷ c ∷ p else c ∷ p

-- `none` is the failed assertion that the base is 8 or more; the buffer has room for 23 characters
-- and the zero byte.
unfoldable pub ntoab : ℕ → ℕ → Bool → Option (List ℕ)
ntoab x base signed =
    let sign = signed && is_negative x in
    let u = if sign then add_word (neg_word (add_word x 1)) 1 else x in
    if ltb base 8
    then none
    else elim (ntoab_loop 23 u base []) [ none ↦ none | some p ↦ some (put_sign sign p) ]

abbrev pub int_mod : ℕ
int_mod = 2 ^ 32

-- An `int`, as its 32 bits, converted to a `long`.
abbrev pub int_to_long : ℕ → ℕ
int_to_long i = if leb (2 ^ 31) i then i + (2 ^ 64 - 2 ^ 32) else i

-- What is taken off the character `c`, a digit, to have its value.
unfoldable pub digit_base : ℕ → ℕ
digit_base c = if leb b'a' c then b'a' - 10 else if leb b'A' c then b'A' - 10 else b'0'

-- A test of a digit, if the base is known, chooses.
abbrev pub choose_known : {A : Type 0} → Option Bool → Option A → Option A → Option A
choose_known none a b = none
choose_known (some true) a b = a
choose_known (some false) a b = b

-- The digit loop of `abtol`. `i` is an `int`. `none` is a base that `isnumber` does not know.
unfoldable pub abtol_loop : ℕ → ℕ → List ℕ → Option (ℕ × List ℕ)
abtol_loop base i [] = some (i, [])
abtol_loop base i (c ∷ s) =
    let rest = abtol_loop base ((i * base + (int_mod + c - digit_base c)) % int_mod) s in
    choose_known (isnumber c base) rest (some (i, c ∷ s))

unfoldable pub skip_spaces : List ℕ → List ℕ
skip_spaces [] = []
skip_spaces (c ∷ s) = if isspace c then skip_spaces s else c ∷ s

unfoldable pub skip_char : ℕ → List ℕ → Bool × List ℕ
skip_char d [] = (false, [])
skip_char d (c ∷ s) = if c == d then (true, s) else (false, c ∷ s)

abbrev pub finish_number : Bool → Option (ℕ × List ℕ) → Option (ℕ × List ℕ)
finish_number sign none = none
finish_number sign (some (i, rest)) =
    some (int_to_long (if sign then (int_mod - i) % int_mod else i), rest)

-- The value, and where the text goes on.
unfoldable pub abtol : List ℕ → ℕ → Option (ℕ × List ℕ)
abtol text base =
    let (_, s) = skip_char b'+' (skip_spaces text) in
    let (sign, s') = skip_char b'-' s in
    finish_number sign (abtol_loop (if base == 0 then 10 else base) 0 s')

-- The functions of lib/mes for base 10 or any base. `ultoa` passes the flag of signed numbers, as the
-- source has it.
abbrev pub ltoa : ℕ → Option (List ℕ)
ltoa x = ntoab x 10 true

abbrev pub ultoa : ℕ → Option (List ℕ)
ultoa x = ntoab x 10 true

abbrev pub utoa : ℕ → Option (List ℕ)
utoa x = ntoab x 10 false

abbrev pub ltoab : ℕ → ℕ → Option (List ℕ)
ltoab x base = ntoab x base true
