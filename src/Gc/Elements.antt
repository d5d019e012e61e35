-- ===== src/Gc/Elements.antt =====
-- The loop of `gc_copy` that copies the elements of a struct or a vector.
use mes.Base.{ℕ, zero, suc, ◌+◌, ◌≤◌, ◌<◌, ◌≡◌, refl, ◌∙◌, ◌⊎◌, inr, arith}
use mes.Gc.{copy_elements}
use mes.Heap.{Cell, Heap, type_at, car_at, cdr_at, cell}
use mes.Heap.Agree.{grow}

-- `n` cells from `from` on are copied to the end of the heap.
pub record Appended (n from : ℕ) (h h' : Heap) : Type 0 where
  pub free_at : h'.free ≡ h.free + n
  pub same : (p : ℕ) → p < h.free → h'.cells p ≡ h.cells p
  pub copied : (i : ℕ) → i < n → h'.cells (h.free + i) ≡ h.cells (from + i)
  pub same_bytes : h'.bytes ≡ h.bytes
  pub same_base : h'.base ≡ h.base

abbrev pub copy_of : Heap → ℕ → Cell
copy_of h p = cell (type_at h p) (car_at h p) (cdr_at h p)

copied_after :
    (n from : ℕ) (h h' : Heap)
    → from + suc n ≤ h.free
    → Appended n (from + 1) (grow h (copy_of h from)) h'
    → (i : ℕ) → i < suc n
    → h'.cells (h.free + i) ≡ h.cells (from + i)
copied_after n from h h' le r zero lt =
    let last : (grow h (copy_of h from)).cells (h.free + 0) ≡ h.cells (from + 0) = ground arith in
    r.same (h.free + 0) (omega arith) ∙ last
copied_after n from h h' le r (suc i) lt =
    let old : (grow h (copy_of h from)).cells (from + 1 + i) ≡ h.cells (from + 1 + i) =
      ground arith in
    let here : h.free + suc i ≡ h.free + 1 + i = omega arith in
    let there : from + suc i ≡ from + 1 + i = omega arith in
    rw (here, there) (r.copied i (omega arith) ∙ old)

pub copy_elements-Appended :
    (n from : ℕ) (h : Heap)
    → (n ≡ 0) ⊎ (from + n ≤ h.free)
    → Appended n from h (copy_elements n from h)
unfolding copy_elements
copy_elements-Appended zero from h le = record {
  free_at = omega arith;
  same = λ p lt. refl;
  copied = λ i lt. absurd (omega arith);
  same_bytes = refl;
  same_base = refl;
}
copy_elements-Appended (suc n) from h le =
    let r = copy_elements-Appended n (from + 1) (grow h (copy_of h from)) (inr (omega arith)) in
    record {
      free_at = omega (arith, r.free_at);
      same = λ p lt.
          let old : (grow h (copy_of h from)).cells p ≡ h.cells p = ground arith in
          r.same p (omega arith) ∙ old;
      copied = copied_after n from h _ (omega arith) r;
      same_bytes = r.same_bytes;
      same_base = r.same_base;
    }
