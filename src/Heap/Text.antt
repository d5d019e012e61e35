-- ===== src/Heap/Text.antt =====
-- `make_string` of src/gc.c: where the new string stands and what it holds.
use mes.Base.{
  ℕ, suc, ◌+◌, ◌≤◌, ◌≡◌, refl, ◌∙◌, fun_ext, false, ◌&&◌, arith, ltb, ◌==◌, if◌then◌else◌,
}
use mes.Heap.{Heap, Run, ok, and_then-ok, car_at, cdr_at, cell, write, write_cdr}
use mes.Heap.Agree.{Extends, Room, grow, make_cell_ok, alloc_ok, Room-grow}
use mes.Heap.Alloc.{alloc, make_pointer_cell, bytes_cells, make_bytes, make_string}
use mes.Heap.Const.{t_bytes, t_string}

pub record MakesString (s : ℕ → ℕ) (n : ℕ) (h : Heap) (run : Run Heap ℕ) : Type 0 where
  pub heap : Heap
  pub returns : run ≡ ok h.free heap
  pub same_length : car_at heap h.free ≡ n
  pub place : cdr_at heap h.free ≡ h.free + 1
  pub text : (i : ℕ) → i ≤ n → heap.bytes (h.free + 1) i ≡ s i
  pub extends : Extends h heap
  pub count : heap.free ≡ h.free + 1 + bytes_cells (n + 1)
  pub same_max : heap.max_string ≡ h.max_string

abbrev string_cells : ℕ → ℕ → Heap → Heap
string_cells bytes n h =
    let h1 = grow h (cell t_string n 0) in
    let h2 = record h1 { free = h1.free + bytes } in
    write h2 h1.free (cell t_bytes (n + 1) (cdr_at h2 h1.free))

bytes_made :
    (n : ℕ) (h : Heap)
    → Room (suc (bytes_cells (n + 1))) h
    → make_bytes (n + 1) (grow h (cell t_string n 0))
      ≡ ok (h.free + 1) (string_cells (bytes_cells (n + 1)) n h)
unfolding make_bytes
bytes_made n h room =
    let h1 = grow h (cell t_string n 0) in
    and_then-ok (alloc (bytes_cells (n + 1))) _
      (alloc_ok (bytes_cells (n + 1)) h1 (Room-grow h (cell t_string n 0) room))
    ∙ refl

pub make_string-MakesString :
    (s : ℕ → ℕ) (n : ℕ) (h : Heap)
    → n ≤ h.max_string
    → Room (suc (bytes_cells (n + 1))) h
    → MakesString s n h (make_string s n h)
unfolding make_string
make_string-MakesString s n h le room =
    let fits : ltb h.max_string n ≡ false = ground arith in
    let h3 = string_cells (bytes_cells (n + 1)) n h in
    let h4 = record h3 {
      bytes = λ q i. if (q == h.free + 1) && ltb i (n + 1) then s i else h3.bytes q i;
    } in
    let h5 = write_cdr h4 h.free (h.free + 1) in
    record {
      heap = h5;
      returns = rw fits (
          and_then-ok (make_pointer_cell t_string n 0) _ (make_cell_ok t_string n 0 h room)
          ∙ and_then-ok (make_bytes (n + 1)) _ (bytes_made n h room));
      same_length = ground arith;
      place = ground arith;
      text = λ i lt. ground arith;
      extends = record {
        grows = omega arith;
        same = λ p lt. ground arith;
        same_bytes = λ p lt. fun_ext (λ i. ground arith);
        same_base = refl;
        same_size = refl;
      };
      count = refl;
      same_max = refl;
    }
