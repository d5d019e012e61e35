-- ===== src/Tests/Reader.antt =====
-- The reader on hexadecimal digits.
use mes.Base.{ℕ, ◌<◌, ◌≡◌, refl, inl, inr, true, false, not, [], ◌∷◌, arith, ◌==◌, neg_word}
use mes.Heap.Alloc.{make_number}
use mes.Reader.{eof, in_heap, next_char}
use mes.Reader.Digits.{hexadecimal, reader_of, WritesDigit, reader-number}
use mes.Tests.{sample}

no_digit_lem : (w : ℕ) → w < 16 → ¬ WritesDigit w (next_char (41 ∷ []))
unfolding next_char
no_digit_lem w lt (inl (l, e)) = omega arith
no_digit_lem w lt (inr (inl (l, e))) = omega arith
no_digit_lem w lt (inr (inr (l, e))) = omega arith

reader-number_example :
    reader_of hexadecimal 3
      (record { heap = sample; input = b'-' ∷ b'F' ∷ b'e' ∷ 41 ∷ []; unread = false })
    ≡ in_heap
        (make_number (neg_word 254))
        (record { heap = sample; input = 41 ∷ []; unread = not (next_char (41 ∷ []) == eof) })
reader-number_example =
    reader-number hexadecimal true 3 15 (14 ∷ []) (b'F' ∷ b'e' ∷ []) (41 ∷ []) sample false
      (omega arith, inr (inr (omega arith, refl)), (omega arith, inr (inl (omega arith, refl)), tt))
      no_digit_lem (omega arith)
