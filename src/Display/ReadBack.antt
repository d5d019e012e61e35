-- ===== src/Display/ReadBack.antt =====
-- What `write_` of src/display.c writes for a string, src/reader.c reads back.
use mathlib.Core.List.{append_assoc, append-nil}
use mes.Base.{
  ℕ, zero, suc, ◌+◌, ◌%◌, ◌≤◌, ◌<◌, ◌≡◌, refl, sym, ap, ◌∙◌, subst, ◌⊎◌, inl, inr, false, List, [],
  ◌∷◌, ◌++◌, arith, ltb, ◌==◌, ==_iff, Bool-cases,
}
use mes.Display.{Output, Surroundings, string_char_text, string_text, fdwrite_string}
use mes.Display.Helper.{
  fdisplay_, put_quoted, display_string, display_object, display_helper, write_,
}
use mes.Heap.{Heap, Run, ok, and_then-ok, type_at, car_at, update}
use mes.Heap.Alloc.{make_string}
use mes.Heap.Const.{t_string, cell_unspecified}
use mes.Reader.{readchar, Reader, in_heap, next_char}
use mes.Reader.Character.{escape, read_escape, string_loop, reader_read_string}
use mes.Strings.{text_of}
use mes.Strings.Convert.{assert_max_string}

-- A character that is written as it is, or behind a backslash by a letter that stands for it.
abbrev Readable : ℕ → Type 0
Readable v =
    ((string_char_text v ≡ v ∷ []) × ((v == 34) ≡ false) × ((v == b'\\') ≡ false))
    ⊎ ((e : ℕ) × (string_char_text v ≡ b'\\' ∷ e ∷ []) × ((e == b'x') ≡ false) × (escape e ≡ v))

one_value : (v c : ℕ) → (v ≡ c) ⊎ ((v == c) ≡ false)
one_value v c = elim (Bool-cases (v == c)) [ inl y ↦ inl ((==_iff v c).0 y) | inr n ↦ inr n ]

every_char : (v : ℕ) → Readable v
unfolding string_char_text
every_char v = elim (one_value v 0) [
  | inl e ↦ subst Readable (sym e) (inr (b'0', refl, refl, refl))
  | inr n0 ↦ elim (one_value v 7) [
    | inl e ↦ subst Readable (sym e) (inr (b'a', refl, refl, refl))
    | inr n1 ↦ elim (one_value v 8) [
      | inl e ↦ subst Readable (sym e) (inr (b'b', refl, refl, refl))
      | inr n2 ↦ elim (one_value v 9) [
        | inl e ↦ subst Readable (sym e) (inr (b't', refl, refl, refl))
        | inr n3 ↦ elim (one_value v 11) [
          | inl e ↦ subst Readable (sym e) (inr (b'v', refl, refl, refl))
          | inr n4 ↦ elim (one_value v 10) [
            | inl e ↦ subst Readable (sym e) (inr (b'n', refl, refl, refl))
            | inr n5 ↦ elim (one_value v 12) [
              | inl e ↦ subst Readable (sym e) (inr (b'f', refl, refl, refl))
              | inr n6 ↦ elim (one_value v 13) [
                | inl e ↦ subst Readable (sym e) (inr (b'r', refl, refl, refl))
                | inr n7 ↦ elim (one_value v 27) [
                  | inl e ↦ subst Readable (sym e) (inr (b'e', refl, refl, refl))
                  | inr n8 ↦ elim (one_value v b'\\') [
                    | inl e ↦ subst Readable (sym e) (inr (b'\\', refl, refl, refl))
                    | inr n9 ↦ elim (one_value v 34) [
                      | inl e ↦ subst Readable (sym e) (inr (34, refl, refl, refl))
                      | inr n10 ↦
                          inl (rw (n0, n1, n2, n3, n4, n5, n6, n7, n8, n9, n10) refl, n10, n9)
                    ]
                  ]
                ]
              ]
            ]
          ]
        ]
      ]
    ]
  ]
]

abbrev reader_at : Heap → List ℕ → Reader
reader_at h cs = record { heap = h; input = cs; unread = false }

enough :
    (i : ℕ) (h : Heap) (cs : List ℕ)
    → i ≤ h.max_string
    → in_heap (assert_max_string i) (reader_at h cs) ≡ ok tt (reader_at h cs)
unfolding assert_max_string
enough i h cs le = let fits : ltb h.max_string i ≡ false = ground arith in rw (in_heap, fits) refl

-- A round of the loop takes what one character was written as.
read_one_back :
    (k : ℕ) (buf : ℕ → ℕ) (i v : ℕ) (h : Heap) (cs : List ℕ)
    → v < 256
    → i ≤ h.max_string
    → string_loop (suc k) buf i (reader_at h (string_char_text v ++ cs))
      ≡ string_loop k (update buf i v) (i + 1) (reader_at h cs)
unfolding string_loop readchar next_char read_escape
read_one_back k buf i v h cs lt le =
    let byte : v % 256 ≡ v = omega arith in
    and_then-ok (in_heap (assert_max_string i)) _ (enough i h (string_char_text v ++ cs) le)
    ∙ elim (every_char v) [
      | inl (e, q, b) ↦ rw (e, q, b, byte) refl
      | inr (c, e, x, f) ↦ rw (e, x, f, byte) refl
    ]

read_end :
    (k : ℕ) (buf : ℕ → ℕ) (i : ℕ) (h : Heap) (cs : List ℕ)
    → i ≤ h.max_string
    → string_loop (suc k) buf i (reader_at h (34 ∷ cs)) ≡ ok (update buf i 0, i) (reader_at h cs)
unfolding string_loop readchar next_char
read_end k buf i h cs le =
    and_then-ok (in_heap (assert_max_string i)) _ (enough i h (34 ∷ cs) le) ∙ refl

-- Characters of one byte each.
abbrev pub AreBytes : (ℕ → ℕ) → ℕ → Type 0
AreBytes s n = (i : ℕ) → i < n → s i < 256

-- A run that reads `n` characters of `s` from index `j` on to the buffer, from `i` on.
record Reads (s buf : ℕ → ℕ) (n i j : ℕ) (h : Heap) (cs : List ℕ) (run : Run Reader ((ℕ → ℕ) × ℕ))
    : Type 0 where
  result : ℕ → ℕ
  returns : run ≡ ok (result, i + n) (reader_at h cs)
  same : (t : ℕ) → t < i → result t ≡ buf t
  text : (t : ℕ) → t < n → result (i + t) ≡ s (j + t)
  end : result (i + n) ≡ 0

read_text :
    (n k : ℕ) (s buf : ℕ → ℕ) (i j : ℕ) (h : Heap) (cs : List ℕ)
    → ((t : ℕ) → t < n → s (j + t) < 256)
    → i + n ≤ h.max_string
    → n < k
    → Reads s buf n i j h cs (string_loop k buf i (reader_at h (string_text s n j ++ 34 ∷ cs)))
unfolding string_text
read_text zero zero s buf i j h cs bytes le fuel = absurd (omega arith)
read_text zero (suc k) s buf i j h cs bytes le fuel =
    let i0 : i + 0 ≡ i = omega arith in
    record {
      result = update buf i 0;
      returns =
          read_end k buf i h cs (omega arith)
          ∙ ap (λ (t : ℕ). ok (update buf i 0, t) (reader_at h cs)) (sym i0);
      same = λ t lt. ground arith;
      text = λ t lt. absurd (omega arith);
      end = ap (update buf i 0) i0 ∙ ground arith;
    }
read_text (suc n) zero s buf i j h cs bytes le fuel = absurd (omega arith)
read_text (suc n) (suc k) s buf i j h cs bytes le fuel =
    let j0 : j + 0 ≡ j = omega arith in
    let small : s j < 256 = subst (λ q. s q < 256) j0 (bytes 0 (omega arith)) in
    let shift : (t : ℕ) → j + 1 + t ≡ j + suc t = λ t. omega arith in
    let r =
      read_text n k s (update buf i (s j)) (i + 1) (j + 1) h cs
        (λ t lt. subst (λ q. s q < 256) (sym (shift t)) (bytes (suc t) (omega arith))) (omega arith)
        (omega arith) in
    let split : string_text s (suc n) j ++ 34 ∷ cs
        ≡ string_char_text (s j) ++ (string_text s n (j + 1) ++ 34 ∷ cs) =
      append_assoc (string_char_text (s j)) (string_text s n (j + 1)) (34 ∷ cs) in
    let over : i + 1 + n ≡ i + suc n = omega arith in
    record {
      result = r.result;
      returns =
          ap (λ l. string_loop (suc k) buf i (reader_at h l)) split
          ∙ read_one_back k buf i (s j) h (string_text s n (j + 1) ++ 34 ∷ cs) small (omega arith)
          ∙ r.returns
          ∙ ap (λ (t : ℕ). ok (r.result, t) (reader_at h cs)) over;
      same = λ t lt. r.same t (omega arith) ∙ ground arith;
      text =
          λ t lt. text_after n s r.result i j (r.same i (omega arith) ∙ ground arith) r.text t lt;
      end = ap r.result (sym over) ∙ r.end;
    }
  where
    text_after :
        (n : ℕ) (s result : ℕ → ℕ) (i j : ℕ)
        → result i ≡ s j
        → ((t : ℕ) → t < n → result (i + 1 + t) ≡ s (j + 1 + t))
        → (t : ℕ) → t < suc n
        → result (i + t) ≡ s (j + t)
    text_after n s result i j first rest zero lt =
        let a : i + 0 ≡ i = omega arith in
        let b : j + 0 ≡ j = omega arith in ap result a ∙ first ∙ ap s (sym b)
    text_after n s result i j first rest (suc t) lt =
        let a : i + suc t ≡ i + 1 + t = omega arith in
        let b : j + suc t ≡ j + 1 + t = omega arith in
        ap result a ∙ rest t (omega arith) ∙ ap s (sym b)

quoted : (w t : List ℕ) → (((w ++ []) ++ 34 ∷ []) ++ t) ++ 34 ∷ [] ≡ w ++ 34 ∷ (t ++ 34 ∷ [])
quoted w t =
    append_assoc ((w ++ []) ++ 34 ∷ []) t (34 ∷ [])
    ∙ append_assoc (w ++ []) (34 ∷ []) (t ++ 34 ∷ [])
    ∙ ap (λ (l : List ℕ). l ++ 34 ∷ (t ++ 34 ∷ [])) (append-nil w)

write_string :
    (s : Surroundings) (k x : ℕ) (o : Output)
    → type_at o.heap x ≡ t_string
    → write_ s (suc k) x o
      ≡ ok cell_unspecified (record o {
        depth = 4;
        written = o.written ++ 34 ∷ (string_text (text_of o.heap x) (car_at o.heap x) 0 ++ 34 ∷ []);
      })
unfolding write_ fdisplay_ display_helper display_object display_string put_quoted fdwrite_string
write_string s k x o e =
    let t = string_text (text_of o.heap x) (car_at o.heap x) 0 in
    let run : write_ s (suc k) x o
        ≡ ok cell_unspecified
            (record o { depth = 4; written = (((o.written ++ []) ++ 34 ∷ []) ++ t) ++ 34 ∷ [] }) =
      rw e refl in
    run
    ∙ ap (λ (w : List ℕ). ok cell_unspecified (record o { depth = 4; written = w }))
        (quoted o.written t)

-- What is read behind the first quote: a string of the same length and the same characters.
pub record ReadsBack (s : ℕ → ℕ) (n : ℕ) (h : Heap) (text cs : List ℕ)
    (read : Reader → Run Reader ℕ) : Type 0 where
  pub buf : ℕ → ℕ
  pub returns :
      read (record { heap = h; input = text ++ cs; unread = false })
      ≡ in_heap (make_string buf n) (record { heap = h; input = cs; unread = false })
  pub same_text : (i : ℕ) → i < n → buf i ≡ s i
  pub end : buf n ≡ 0

read_string-ReadsBack :
    (k : ℕ) (s : ℕ → ℕ) (n : ℕ) (h : Heap) (cs : List ℕ)
    → AreBytes s n
    → n ≤ h.max_string
    → n < k
    → ReadsBack s n h (string_text s n 0 ++ 34 ∷ []) cs (reader_read_string k)
unfolding reader_read_string
read_string-ReadsBack k s n h cs bytes le fuel =
    let from0 : (t : ℕ) → 0 + t ≡ t = λ t. omega arith in
    let r =
      read_text n k s (λ i. 0) 0 0 h cs
        (λ t lt. subst (λ q. s q < 256) (sym (from0 t)) (bytes t lt)) (omega arith) fuel in
    let input : (string_text s n 0 ++ 34 ∷ []) ++ cs ≡ string_text s n 0 ++ 34 ∷ cs =
      append_assoc (string_text s n 0) (34 ∷ []) cs in
    record {
      buf = r.result;
      returns =
          ap (λ l. reader_read_string k (reader_at h l)) input
          ∙ and_then-ok (string_loop k (λ i. 0) 0) _ r.returns
          ∙ ap (λ (t : ℕ). in_heap (make_string r.result t) (reader_at h cs)) (from0 n);
      same_text = λ i lt. ap r.result (sym (from0 i)) ∙ r.text i lt ∙ ap s (from0 i);
      end = ap r.result (sym (from0 n)) ∙ r.end;
    }

-- `write_` of a string, whose characters are bytes and whose length is at most `MAX_STRING`,
-- writes a quote and a text, and nothing else; what stands behind the quote `reader_read_string`
-- reads, with no character given back, as it is when the quote was just read, up to its end and
-- with more rounds than characters, as a string of the same length and the same characters.
pub write_-ReadsBack :
    (s : Surroundings) (k k' x : ℕ) (o : Output) (h : Heap) (cs : List ℕ)
    → type_at o.heap x ≡ t_string
    → AreBytes (text_of o.heap x) (car_at o.heap x)
    → car_at o.heap x ≤ h.max_string
    → car_at o.heap x < k'
    → (text : List ℕ) × (write_ s (suc k) x o
        ≡ ok cell_unspecified (record o { depth = 4; written = o.written ++ 34 ∷ text }))
      × ReadsBack (text_of o.heap x) (car_at o.heap x) h text cs (reader_read_string k')
write_-ReadsBack s k k' x o h cs e bytes le fuel = (
  string_text (text_of o.heap x) (car_at o.heap x) 0 ++ 34 ∷ [],
  write_string s k x o e,
  read_string-ReadsBack k' (text_of o.heap x) (car_at o.heap x) h cs bytes le fuel,
)
