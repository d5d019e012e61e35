-- ===== src/Reader/Value.antt =====
-- Numbers in base 2, 8 and 16 as src/reader.c reads them.
use native.Mathlib.Nat.{
  div-add-mod, add-mul, mul_assoc, mul-add-mod_self_left, mod-add-mod, mod-mod, mod-lt,
}
use mes.Base.{
  ℕ, zero, suc, ◌+◌, ◌*◌, ◌/◌, ◌%◌, ◌^◌, ◌<◌, ◌≡◌, sym, ap, ◌∙◌, Bool, true, false, not, List, [],
  ◌∷◌, ◌++◌, arith, ◌==◌, length, word_mod, add_word, mul_word, neg_word,
}
use mes.Heap.{Heap, ok, and_then-ok}
use mes.Heap.Alloc.{make_number}
use mes.Reader.{readchar, Reader, eof, in_heap, next_char}
use mes.Reader.Radix.{radix_loop, read_radix}

-- The number that digits write behind `n`, in base `2 ^ bits`, without a bound.
abbrev pub numeral : ℕ → (ℕ → ℕ) → ℕ → List ℕ → ℕ
numeral bits value n [] = n
numeral bits value n (d ∷ ds) = numeral bits value (n * 2 ^ bits + value d) ds

abbrev pub AllDigits : (ℕ → Bool) → List ℕ → Type 0
AllDigits digit_p [] = Unit {0}
AllDigits digit_p (d ∷ ds) = (digit_p d ≡ true) × AllDigits digit_p ds

-- Behind the digits the next character has been looked at.
abbrev pub stopped : Heap → List ℕ → Reader
stopped h rest = record { heap = h; input = rest; unread = not (next_char rest == eof) }

mul-mod_of : (n b : ℕ) → n * b % word_mod ≡ n % word_mod * b % word_mod
mul-mod_of n b =
    let q = n / word_mod in
    let r = n % word_mod in
    let whole : n ≡ word_mod * q + r = sym (div-add-mod n word_mod) in
    let split : n * b ≡ word_mod * (q * b) + r * b =
      ap (λ t. t * b) whole
      ∙ (add-mul (word_mod * q) r b ∙ ap (λ t. t + r * b) (mul_assoc word_mod q b)) in
    ap (λ t. t % word_mod) split ∙ mul-add-mod_self_left word_mod (q * b) (r * b)

-- A digit behind congruent numbers.
digit-mod :
    (n m b v : ℕ) → n % word_mod ≡ m % word_mod → (n * b + v) % word_mod ≡ (m * b + v) % word_mod
digit-mod n m b v e =
    let p : n * b % word_mod ≡ m * b % word_mod =
      mul-mod_of n b ∙ (ap (λ t. t * b % word_mod) e ∙ sym (mul-mod_of m b)) in
    sym (mod-add-mod (n * b) word_mod v)
    ∙ (ap (λ t. (t + v) % word_mod) p ∙ mod-add-mod (m * b) word_mod v)

numeral-mod :
    (bits : ℕ) (value : ℕ → ℕ) (ds : List ℕ) (n m : ℕ)
    → n % word_mod ≡ m % word_mod
    → numeral bits value n ds % word_mod ≡ numeral bits value m ds % word_mod
numeral-mod bits value [] n m e = e
numeral-mod bits value (d ∷ ds) n m e =
    numeral-mod bits value ds (n * 2 ^ bits + value d) (m * 2 ^ bits + value d)
      (digit-mod n m (2 ^ bits) (value d) e)

radix_loop-value :
    (k bits : ℕ) (digit_p : ℕ → Bool) (value : ℕ → ℕ) (ds : List ℕ) (n : ℕ) (rest : List ℕ)
    (h : Heap) (u : Bool)
    → AllDigits digit_p ds
    → digit_p (next_char rest) ≡ false
    → length ds < k
    → n < word_mod
    → radix_loop k digit_p value bits n (record { heap = h; input = ds ++ rest; unread = u })
      ≡ ok (numeral bits value n ds % word_mod) (stopped h rest)
unfolding radix_loop next_char readchar
radix_loop-value zero bits digit_p value ds n rest h u all stop lt small = absurd (omega arith)
radix_loop-value (suc k) bits digit_p value [] n rest h u all stop lt small =
    let e : n ≡ n % word_mod = omega arith in rw stop (ap (λ n. ok n (stopped h rest)) e)
radix_loop-value (suc k) bits digit_p value (d ∷ ds) n rest h u (is_digit, all) stop lt small =
    let n' = add_word (mul_word n (2 ^ bits)) (value d) in
    let same : n' % word_mod ≡ (n * 2 ^ bits + value d) % word_mod =
      mod-mod (mul_word n (2 ^ bits) + value d) word_mod
      ∙ mod-add-mod (n * 2 ^ bits) word_mod (value d) in
    let ih =
      radix_loop-value k bits digit_p value ds n' rest h false all stop (omega arith)
        (mod-lt (mul_word n (2 ^ bits) + value d) (omega arith)) in
    rw is_digit (
      ih
      ∙ ap (λ n. ok n (stopped h rest))
          (numeral-mod bits value ds n' (n * 2 ^ bits + value d) same))

-- What the three functions for numbers share, for any test and any value of a digit.
pub read_radix-value :
    (k bits : ℕ) (digit_p : ℕ → Bool) (value : ℕ → ℕ) (ds rest : List ℕ) (h : Heap) (u : Bool)
    → AllDigits digit_p ds
    → digit_p (next_char rest) ≡ false
    → length ds < k
    → ((next_char (ds ++ rest) == b'-') ≡ false
        → read_radix k digit_p value bits (record { heap = h; input = ds ++ rest; unread = u })
          ≡ in_heap (make_number (numeral bits value 0 ds % word_mod)) (stopped h rest))
      × (read_radix k digit_p value bits
            (record { heap = h; input = b'-' ∷ (ds ++ rest); unread = u })
          ≡ in_heap (make_number (neg_word (numeral bits value 0 ds % word_mod))) (stopped h rest))
unfolding read_radix next_char readchar
read_radix-value k bits digit_p value ds rest h u all stop lt =
    let read =
      λ (u : Bool). radix_loop-value k bits digit_p value ds 0 rest h u all stop lt (omega arith) in
    (
      (λ plain. rw plain (and_then-ok (radix_loop k digit_p value bits 0) _ (read u))),
      and_then-ok (radix_loop k digit_p value bits 0) _ (read false),
    )
