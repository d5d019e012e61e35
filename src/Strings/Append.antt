-- ===== src/Strings/Append.antt =====
-- `string_append` of src/string.c against the text that its arguments make together.
use mes.Base.{
  ℕ, zero, suc, ◌+◌, ◌-◌, ◌%◌, ◌^◌, ◌≤◌, ◌<◌, ◌≡◌, refl, sym, ap, ◌∙◌, inl, inr, true, false, List,
  [], ◌∷◌, arith, ltb, leb, ◌==◌, if◌then◌else◌, Bool-cases, length,
}
use mes.Gc.Snapshot.{size}
use mes.Heap.{Heap, ok, and_then-ok, type_at, car_at, cdr_at, update}
use mes.Heap.Agree.{ListAt}
use mes.Heap.Alloc.{make_char, make_string}
use mes.Heap.Const.{t_char, t_number, t_string, cell_nil, cell_unspecified}
use mes.Libc.Memory.{char_word}
use mes.Strings.{text_of, string_ref}
use mes.Strings.Convert.{assert_max_string, paste, append_loop, string_append, string_set_x}

-- The bytes of the strings `xs`, one string after another, counted together.
abbrev total_length : Heap → List ℕ → ℕ
total_length h [] = 0
total_length h (x ∷ xs) = car_at h x + total_length h xs

abbrev pub byte_of : Heap → List ℕ → ℕ → ℕ
byte_of h [] i = 0
byte_of h (x ∷ xs) i = if ltb i (car_at h x) then text_of h x i else byte_of h xs (i - car_at h x)

abbrev AllStrings : Heap → List ℕ → Type 0
AllStrings h [] = Unit {0}
AllStrings h (x ∷ xs) = (type_at h x ≡ t_string) × AllStrings h xs

paste-before : (buf : ℕ → ℕ) (at : ℕ) (s : ℕ → ℕ) (n i : ℕ) → i < at → paste buf at s n i ≡ buf i
paste-before buf at s n i lt = ground arith

paste-inside :
    (buf : ℕ → ℕ) (at : ℕ) (s : ℕ → ℕ) (n i : ℕ) → i < n → paste buf at s n (at + i) ≡ s i
paste-inside buf at s n i lt =
    let from : leb at (at + i) ≡ true = ground arith in
    let below : ltb (at + i) (at + n) ≡ true = ground arith in
    let back : at + i - at ≡ i = omega arith in rw (from, below) (ap s back)

append_loop-bytes :
    (k b size p : ℕ) (xs : List ℕ) (buf : ℕ → ℕ) (h : Heap)
    → length xs < k
    → ListAt h b p xs
    → AllStrings h xs
    → size + total_length h xs ≤ h.max_string
    → (buf' : ℕ → ℕ) × (append_loop k buf size p h ≡ ok (buf', size + total_length h xs) h)
      × ((i : ℕ) → i < size → buf' i ≡ buf i)
      × ((i : ℕ) → i < total_length h xs → buf' (size + i) ≡ byte_of h xs i)
unfolding append_loop assert_max_string
append_loop-bytes zero b size p xs buf h lt l s fits = absurd (omega arith)
append_loop-bytes (suc k) b size p [] buf h lt l s fits =
    let e : size ≡ size + 0 = omega arith in
    (buf, rw l (ap (λ n. ok (buf, n) h) e), (λ i lt. refl), (λ i lt. absurd (omega arith)))
append_loop-bytes (suc k) b size p (x ∷ xs) buf h lt (ne, below, t, c, tail) (string, rest) fits =
    let n = car_at h x in
    let (buf', returns, before, bytes) =
      append_loop-bytes k b (size + n) (cdr_at h p) xs (paste buf size (text_of h x) (n + 1)) h
        (omega arith) tail rest (omega arith) in
    let more : (p == cell_nil) ≡ false = ground arith in
    let short : ltb h.max_string (size + n) ≡ false = ground arith in
    let sum : size + n + total_length h xs ≡ size + (n + total_length h xs) = omega arith in
    (
      buf',
      rw (more, c, string, short) (returns ∙ ap (λ n. ok (buf', n) h) sum),
      (λ i lt. before i (omega arith) ∙ paste-before buf size (text_of h x) (n + 1) i lt),
      (λ i lt. elim (Bool-cases (ltb i n)) [
        | inl y ↦
            let l : i < n = ground arith in
            rw y (
              before (size + i) (omega arith)
              ∙ paste-inside buf size (text_of h x) (n + 1) i (omega arith))
        | inr z ↦
            let l : n ≤ i = ground arith in
            let at : size + i ≡ size + n + (i - n) = omega arith in
            rw z (ap buf' at ∙ bytes (i - n) (omega arith))
      ]),
    )

-- `string_append` of strings whose lengths are together at most `MAX_STRING` makes a string of that
-- length, whose bytes are the bytes of the first, then those of the second, and so on: with more
-- rounds than strings it is `make_string` of a buffer that holds them.
pub string_append-bytes :
    (k b p : ℕ) (xs : List ℕ) (h : Heap)
    → length xs < k
    → ListAt h b p xs
    → AllStrings h xs
    → total_length h xs ≤ h.max_string
    → (buf : ℕ → ℕ) × (string_append k p h ≡ make_string buf (total_length h xs) h)
      × ((i : ℕ) → i < total_length h xs → buf i ≡ byte_of h xs i)
unfolding string_append
string_append-bytes k b p xs h lt l s fits =
    let (buf, returns, before, bytes) =
      append_loop-bytes k b 0 p xs (λ i. 0) h lt l s (omega arith) in
    let from : (i : ℕ) → 0 + i ≡ i = λ i. omega arith in
    (
      buf,
      and_then-ok (append_loop k (λ i. 0) 0 p) (λ (b, n). make_string b n)
          (returns ∙ ap (λ n. ok (buf, n) h) (from (total_length h xs))),
      (λ i lt. ap buf (sym (from i)) ∙ bytes i lt),
    )

-- A character is read back where it was put: for a string, an index that is at most its length, and
-- a character of one byte, `string_set_x` returns, no cell changes, and `string_ref` of the index is
-- then a character of the same value if that is below 128, and of the value less 256, as a word,
-- otherwise.
pub string_ref-set_x :
    (str k c : ℕ) (h : Heap)
    → type_at h str ≡ t_string
    → type_at h k ≡ t_number
    → type_at h c ≡ t_char
    → cdr_at h k ≤ car_at h str
    → cdr_at h c < 256
    → (h' : Heap) × (string_set_x str k c h ≡ ok cell_unspecified h')
      × (h'.cells ≡ h.cells)
      × (string_ref str k h'
          ≡ make_char (if ltb (cdr_at h c) 128 then cdr_at h c else 2 ^ 64 + cdr_at h c - 256) h')
unfolding string_set_x string_ref
string_ref-set_x str k c h ts tk tc inside byte =
    let v = cdr_at h str in
    let i = cdr_at h k in
    let h' = record h { bytes = update h.bytes v (update (h.bytes v) i (cdr_at h c % 256)) } in
    let within : ltb (car_at h str) i ≡ false = ground arith in
    let here : (v == v) ≡ true = ground arith in
    let there : (i == i) ≡ true = ground arith in
    let small : cdr_at h c % 256 ≡ cdr_at h c = omega arith in
    let sign : char_word (cdr_at h c)
        ≡ (if ltb (cdr_at h c) 128 then cdr_at h c else 2 ^ 64 + cdr_at h c - 256) =
      ground arith in
    (
      h',
      rw (ts, tk, tc, within) refl,
      refl,
      rw (ts, tk, within) (ap (λ b. make_char b h') (rw (here, there) (ap char_word small ∙ sign))),
    )
