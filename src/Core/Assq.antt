-- ===== src/Core/Assq.antt =====
-- `assq` of src/core.c against a search through the list of entries.
use mes.Base.{
  ℕ, zero, suc, ◌<◌, ◌≡◌, inl, inr, Bool, true, false, ◌||◌, List, [], ◌∷◌, arith, ◌==◌,
  if◌then◌else◌, Bool-cases, length,
}
use mes.Core.{truth, assq_loop, same_cell, same_value, assq}
use mes.Heap.{Heap, Run, ok, type_at, car_at, cdr_at}
use mes.Heap.Agree.{ListAt}
use mes.Heap.Const.{t_char, t_keyword, t_number, t_special, t_symbol, cell_nil, cell_f}
use mes.Strings.{same_text, string_equal_p}

-- The entry that comes first among those whose key passes the test, or `#f`.
abbrev pub find_entry : Heap → (ℕ → Bool) → List ℕ → ℕ
find_entry h test [] = cell_f
find_entry h test (e ∷ es) = if test (car_at h e) then e else find_entry h test es

-- When the key `y` matches `x`: symbols and other objects by identity, characters and numbers by
-- the word they hold, keywords by their text.
unfoldable pub same_key : Heap → ℕ → ℕ → Bool
same_key h x y =
    let t = type_at h x in
    if (t == t_symbol) || (t == t_special)
    then x == y
    else if (t == t_char) || (t == t_number)
    then cdr_at h x == cdr_at h y
    else if t == t_keyword
    then same_text h x y
    else x == y

assq_loop_lem :
    (h : Heap) (b : ℕ) (same : ℕ → Heap → Run Heap ℕ) (test : ℕ → Bool)
    → ((y : ℕ) → same y h ≡ ok (truth (test y)) h)
    → (es : List ℕ) (k a : ℕ) → ListAt h b a es
    → length es < k
    → assq_loop same k a h ≡ ok (find_entry h test es) h
unfolding assq_loop
assq_loop_lem h b same test s es zero a l lt = absurd (omega arith)
assq_loop_lem h b same test s [] (suc k) a l lt = ground arith
assq_loop_lem h b same test s (e ∷ es) (suc k) a (ne, lb, t, c, l) lt =
    let n : (a == cell_nil) ≡ false = ground arith in
    rw (n, c, s (car_at h e))
      (ground (arith, assq_loop_lem h b same test s es k (cdr_at h a) l (omega arith)))

string_equal_p-keyword :
    (h : Heap) (x y : ℕ)
    → (type_at h x == t_keyword) ≡ true
    → string_equal_p x y h ≡ ok (truth (same_text h x y)) h
unfolding string_equal_p
string_equal_p-keyword h x y e = ground arith

dispatch : (x : ℕ) → ℕ → ℕ → Heap → Run Heap ℕ
dispatch x k a h =
    let t = type_at h x in
    if (t == t_symbol) || (t == t_special)
    then assq_loop (same_cell x) k a h
    else if (t == t_char) || (t == t_number)
    then assq_loop (same_value x) k a h
    else if t == t_keyword
    then assq_loop (string_equal_p x) k a h
    else assq_loop (same_cell x) k a h

dispatch_lem :
    (h : Heap) (b k x a : ℕ) (es : List ℕ)
    → ListAt h b a es
    → length es < k
    → dispatch x k a h ≡ ok (find_entry h (same_key h x) es) h
unfolding dispatch same_key
dispatch_lem h b k x a es l lt =
    elim (Bool-cases ((type_at h x == t_symbol) || (type_at h x == t_special))) [
      | inl s ↦ simp s (assq_loop_lem h b (same_cell x) (same_key h x) (λ y. simp s) es k a l lt)
      | inr s ↦ elim (Bool-cases ((type_at h x == t_char) || (type_at h x == t_number))) [
        | inl n ↦
            simp (s, n)
              (assq_loop_lem h b (same_value x) (same_key h x) (λ y. simp (s, n)) es k a l lt)
        | inr n ↦ elim (Bool-cases (type_at h x == t_keyword)) [
          | inl w ↦
              simp (s, n, w)
                (assq_loop_lem h b (string_equal_p x) (same_key h x)
                  (λ y. simp (s, n, w) (string_equal_p-keyword h x y w)) es k a l lt)
          | inr w ↦
              simp (s, n, w)
                (assq_loop_lem h b (same_cell x) (same_key h x) (λ y. simp (s, n, w)) es k a l lt)
        ]
      ]
    ]

-- With enough rounds `assq` returns on every list of entries and every key: the first entry whose
-- key matches, or `#f` if there is none. The heap stays the same.
pub assq-find_entry :
    (h : Heap) (b k x a : ℕ) (es : List ℕ)
    → ListAt h b a es
    → length es < k
    → assq k x a h ≡ ok (find_entry h (same_key h x) es) h
unfolding assq dispatch
assq-find_entry h b k x a [] l lt = ground (arith, dispatch_lem h b k x a [] l lt)
assq-find_entry h b k x a (e ∷ es) l lt = rw l.2 (dispatch_lem h b k x a (e ∷ es) l lt)
