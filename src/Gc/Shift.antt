-- ===== src/Gc/Shift.antt =====
-- One round of `gc_cellcpy` in src/gc.c.
use mes.Base.{
  ℕ, suc, ◌+◌, ◌-◌, ◌<◌, ◌≡◌, refl, fun_ext, ◌≢◌, inl, inr, false, arith, ◌==◌, if◌then◌else◌,
  Bool-cases, sub_word,
}
use mes.Gc.{points_car, moves_cdr, copy_cell_bytes, object_cells, gc_cellcpy_loop}
use mes.Heap.{Cell, Heap, type_at, car_at, cell, write}
use mes.Heap.Const.{t_bytes, t_broken_heart}

-- The cell that is put at the new place: its pointers are `dist` cells less.
abbrev pub shifted : ℕ → Cell → Cell
shifted dist c =
    cell c.ctype (if points_car c.ctype then sub_word c.car dist else c.car)
      (if moves_cdr c.ctype then sub_word c.cdr dist else c.cdr)

-- The object at `src` is put at `dest`.
abbrev pub shift : ℕ → ℕ → ℕ → Heap → Heap
shift dist dest src h =
    let h' = write h dest (shifted dist (h.cells src)) in
    if type_at h src == t_bytes then copy_cell_bytes dest src (car_at h src) h' else h'

-- The object that stood at `s` in `h` stands `dist` cells lower in `h'`.
pub record Shifted (dist : ℕ) (h h' : Heap) (s : ℕ) : Type 0 where
  pub cells : h'.cells (s - dist) ≡ shifted dist (h.cells s)
  pub bytes : type_at h s ≡ t_bytes → (i : ℕ) → i < car_at h s → h'.bytes (s - dist) i ≡ h.bytes s i

-- A round writes at `dest` only.
pub record Places (dist dest src : ℕ) (h h' : Heap) : Type 0 where
  pub cells : h'.cells dest ≡ shifted dist (h.cells src)
  pub bytes : type_at h src ≡ t_bytes → (i : ℕ) → i < car_at h src → h'.bytes dest i ≡ h.bytes src i
  pub same : (q : ℕ) → q ≢ dest → h'.cells q ≡ h.cells q
  pub same_bytes : (q : ℕ) → q ≢ dest → h'.bytes q ≡ h.bytes q
  pub same_free : h'.free ≡ h.free

pub shift-Places : (dist dest src : ℕ) (h : Heap) → Places dist dest src h (shift dist dest src h)
shift-Places dist dest src h = elim (Bool-cases (type_at h src == t_bytes)) [
  | inl y ↦ rw y record {
    cells = ground arith;
    bytes = λ e i lt. ground arith;
    same = λ q ne. ground arith;
    same_bytes = λ q ne. fun_ext (λ i. ground arith);
    same_free = refl;
  }
  | inr n ↦ rw n record {
    cells = ground arith;
    bytes = λ e i lt. absurd (ground arith);
    same = λ q ne. ground arith;
    same_bytes = λ q ne. refl;
    same_free = refl;
  }
]

pub gc_cellcpy_step :
    (k dist dest src left : ℕ) (h : Heap)
    → left ≢ 0
    → type_at h src ≢ t_broken_heart
    → gc_cellcpy_loop (suc k) dist dest src left h ≡ (
        let size = object_cells h (type_at h src) src in
        gc_cellcpy_loop k dist
          (dest + size)
          (src + size)
          (sub_word left size)
          (shift dist dest src h))
unfolding gc_cellcpy_loop
gc_cellcpy_step k dist dest src left h more alive =
    let a : (left == 0) ≡ false = ground arith in
    let b : (type_at h src == t_broken_heart) ≡ false = ground arith in rw (a, b) refl
