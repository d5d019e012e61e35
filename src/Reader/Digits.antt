-- ===== src/Reader/Digits.antt =====
-- Numbers in base 2, 8 and 16 as src/reader.c reads them: what the characters stand for.
use mes.Base.{
  ℕ, suc, ◌+◌, ◌-◌, ◌*◌, ◌%◌, ◌^◌, ◌≤◌, ◌<◌, ◌≡◌, refl, ap, ◌∙◌, ◌≢◌, ◌⊎◌, inl, inr, Bool, true,
  false, not, List, [], ◌∷◌, ◌++◌, arith, leb, ◌==◌, if◌then◌else◌, Bool-cases, length, neg_word,
}
use mes.Heap.{Heap, Run}
use mes.Heap.Alloc.{make_number}
use mes.Math.{minus}
use mes.Reader.{Reader, eof, in_heap, next_char, between}
use mes.Reader.Radix.{
  read_radix, decimal_value, hex_value, reader_read_binary, reader_read_octal, is_hex_digit,
  reader_read_hex,
}
use mes.Reader.Value.{numeral, AllDigits, stopped, read_radix-value}

pub data Radix : Type 0 where
  binary octal hexadecimal : Radix

abbrev pub base_of : Radix → ℕ
base_of binary = 2
base_of octal = 8
base_of hexadecimal = 16

abbrev pub reader_of : Radix → ℕ → Reader → Run Reader ℕ
reader_of binary = reader_read_binary
reader_of octal = reader_read_octal
reader_of hexadecimal = reader_read_hex

-- The characters that write the digit `v`.
abbrev pub WritesDigit : ℕ → ℕ → Type 0
WritesDigit v c =
    ((v < 10) × (c ≡ b'0' + v))
    ⊎ (((10 ≤ v) × (c + 10 ≡ b'a' + v)) ⊎ ((10 ≤ v) × (c + 10 ≡ b'A' + v)))

-- The characters that write digits of the base.
abbrev pub WritesDigits : ℕ → List ℕ → List ℕ → Type 0
WritesDigits base [] [] = Unit {0}
WritesDigits base [] (c ∷ cs) = ⊥
WritesDigits base (v ∷ vs) [] = ⊥
WritesDigits base (v ∷ vs) (c ∷ cs) = (v < base) × WritesDigit v c × WritesDigits base vs cs

-- The number of the digits behind `n`.
abbrev pub number_of : ℕ → ℕ → List ℕ → ℕ
number_of base n [] = n
number_of base n (v ∷ vs) = number_of base (n * base + v) vs

abbrev bits_of : Radix → ℕ
bits_of binary = 1
bits_of octal = 3
bits_of hexadecimal = 4

abbrev test_of : Radix → ℕ → Bool
test_of binary = between b'0' b'1'
test_of octal = between b'0' b'7'
test_of hexadecimal = is_hex_digit

abbrev value_of_digit : Radix → ℕ → ℕ
value_of_digit binary = decimal_value
value_of_digit octal = decimal_value
value_of_digit hexadecimal = hex_value

reader_as_radix :
    (x : Radix) (k : ℕ) → reader_of x k ≡ read_radix k (test_of x) (value_of_digit x) (bits_of x)
unfolding reader_read_binary reader_read_octal reader_read_hex
reader_as_radix binary k = refl
reader_as_radix octal k = refl
reader_as_radix hexadecimal k = refl

base_bits : (x : Radix) → 2 ^ bits_of x ≡ base_of x
base_bits binary = refl
base_bits octal = refl
base_bits hexadecimal = refl

digit_read :
    (x : Radix) (v c : ℕ)
    → v < base_of x
    → WritesDigit v c
    → (test_of x c ≡ true) × (value_of_digit x c ≡ v) × (c ≢ b'-')
unfolding is_hex_digit
digit_read binary v c lt (inl (l, e)) = (ground arith, omega arith, λ f. omega arith)
digit_read binary v c lt (inr (inl (l, e))) = absurd (omega arith)
digit_read binary v c lt (inr (inr (l, e))) = absurd (omega arith)
digit_read octal v c lt (inl (l, e)) = (ground arith, omega arith, λ f. omega arith)
digit_read octal v c lt (inr (inl (l, e))) = absurd (omega arith)
digit_read octal v c lt (inr (inr (l, e))) = absurd (omega arith)
digit_read hexadecimal v c lt (inl (l, e)) = (ground arith, ground arith, λ f. omega arith)
digit_read hexadecimal v c lt (inr (inl (l, e))) = (ground arith, ground arith, λ f. omega arith)
digit_read hexadecimal v c lt (inr (inr (l, e))) = (ground arith, ground arith, λ f. omega arith)

digit_known : (x : Radix) (c : ℕ) → test_of x c ≡ true → (v : ℕ) × (v < base_of x) × WritesDigit v c
unfolding is_hex_digit
digit_known binary c e = (c - b'0', ground arith, inl (ground arith))
digit_known octal c e = (c - b'0', ground arith, inl (ground arith))
digit_known hexadecimal c e = elim (Bool-cases (leb b'a' c)) [
  | inl y ↦ (c - b'a' + 10, ground arith, inr (inl (ground arith)))
  | inr z ↦ elim (Bool-cases (leb b'A' c)) [
    | inl y ↦ (c - b'A' + 10, ground arith, inr (inr (ground arith)))
    | inr z' ↦ (c - b'0', ground arith, inl (ground arith))
  ]
]

all_read :
    (x : Radix) (vs cs : List ℕ) (n : ℕ)
    → WritesDigits (base_of x) vs cs
    → AllDigits (test_of x) cs
      × (numeral (bits_of x) (value_of_digit x) n cs ≡ number_of (base_of x) n vs)
      × (length cs ≡ length vs)
all_read x [] [] n w = (tt, refl, refl)
all_read x [] (c ∷ cs) n w = elim w [ ]
all_read x (v ∷ vs) [] n w = elim w [ ]
all_read x (v ∷ vs) (c ∷ cs) n (lt, d, w) =
    let (is_digit, value, _) = digit_read x v c lt d in
    let (digits, same, len) = all_read x vs cs (n * base_of x + v) w in
    (
      (is_digit, digits),
      ap (λ (q : ℕ × ℕ). numeral (bits_of x) (value_of_digit x) (n * q.0 + q.1) cs)
            (λ i. (base_bits x i, value i))
          ∙ same,
      ap suc len,
    )

no_digit :
    (x : Radix) (rest : List ℕ)
    → ((w : ℕ) → w < base_of x → ¬ WritesDigit w (next_char rest))
    → test_of x (next_char rest) ≡ false
no_digit x rest stop = elim (Bool-cases (test_of x (next_char rest))) [
  | inl y ↦ let (w, lt, d) = digit_known x (next_char rest) y in absurd (stop w lt d)
  | inr z ↦ z
]

-- What stands in the input: a sign or none, digits, and the rest.
abbrev pub signed_text : Bool → List ℕ → List ℕ
signed_text true cs = b'-' ∷ cs
signed_text false cs = cs

-- `reader_read_binary`, `reader_read_octal` and `reader_read_hex` on a `-` or none, one or more
-- digits of the base, in small or capital letters, and a rest that begins with no digit of the
-- base, with more rounds than digits: they return the number that the digits write in that base,
-- modulo `2 ^ 64`, negated if a `-` stands in front, and stop before the rest.
pub reader-number :
    (x : Radix) (sign : Bool) (k v : ℕ) (vs cs rest : List ℕ) (h : Heap) (u : Bool)
    → WritesDigits (base_of x) (v ∷ vs) cs
    → ((w : ℕ) → w < base_of x → ¬ WritesDigit w (next_char rest))
    → length (v ∷ vs) < k
    → let n = number_of (base_of x) 0 (v ∷ vs) % 2 ^ 64 in
      reader_of x k (record { heap = h; input = signed_text sign (cs ++ rest); unread = u })
      ≡ in_heap
          (make_number (if sign then neg_word n else n))
          (record { heap = h; input = rest; unread = not (next_char rest == eof) })
unfolding next_char
reader-number x sign k v vs [] rest h u w stop lt = elim w [ ]
reader-number x true k v vs (c ∷ cs) rest h u w stop lt =
    let (digits, same, len) = all_read x (v ∷ vs) (c ∷ cs) 0 w in
    let end = no_digit x rest stop in
    let (_, minus) =
      read_radix-value k (bits_of x) (test_of x) (value_of_digit x) (c ∷ cs) rest h u digits end
        (omega (arith, len)) in
    ap (λ f. f (record { heap = h; input = b'-' ∷ ((c ∷ cs) ++ rest); unread = u }))
      (reader_as_radix x k)
    ∙ minus
    ∙ ap (λ n. in_heap (make_number (neg_word (n % 2 ^ 64))) (stopped h rest)) same
reader-number x false k v vs (c ∷ cs) rest h u (small, d, w) stop lt =
    let (digits, same, len) = all_read x (v ∷ vs) (c ∷ cs) 0 (small, d, w) in
    let end = no_digit x rest stop in
    let (plain, _) =
      read_radix-value k (bits_of x) (test_of x) (value_of_digit x) (c ∷ cs) rest h u digits end
        (omega (arith, len)) in
    let digit : (c == b'-') ≡ false = ground (arith, (digit_read x v c small d).2) in
    ap (λ f. f (record { heap = h; input = (c ∷ cs) ++ rest; unread = u })) (reader_as_radix x k)
    ∙ plain digit
    ∙ ap (λ n. in_heap (make_number (n % 2 ^ 64)) (stopped h rest)) same
