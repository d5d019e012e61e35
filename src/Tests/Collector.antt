-- ===== src/Tests/Collector.antt =====
-- A collection of two cells, of which one points at itself.
use mes.Base.{ℕ, zero, suc, ◌<◌, ◌≡◌, refl, ◌≢◌, ◌⊎◌, inl, inr, true, [], ◌∷◌, arith}
use mes.Gc.{points_car, points_cdr, gc_copy, scan_cell, scan_loop}
use mes.Gc.Collect.{Collected, scan_loop-Collected}
use mes.Gc.Copy.{element_count}
use mes.Gc.Forward.{Forwards}
use mes.Gc.Loop.{Advances, scan_cell-Advances}
use mes.Gc.Snapshot.{Snapshot, PointsOld, IsWellFormed, Raw}
use mes.Gc.Space.{IsForwarded, Space}
use mes.Gc.Step.{gc_copy-Forwards}
use mes.Heap.{Cell, Heap, ok, type_at, cell}
use mes.Heap.Const.{t_char, t_number, t_pair, t_broken_heart}

-- A number, and a pair of it and of the pair itself.
abbrev old_cells : ℕ → Cell
old_cells zero = cell t_number 0 5
old_cells (suc zero) = cell t_pair 0 1
old_cells (suc (suc p)) = cell t_char 0 0

abbrev old_heap : Heap
old_heap = record {
  cells = old_cells;
  bytes = λ p i. 0;
  free = 3;
  base = 0;
  arena_size = 100;
  max_string = 100;
}

abbrev snapshot : Snapshot
snapshot = record { heap = old_heap; head = λ p. true; news = 2; start = 3 }

-- The pair is copied.
abbrev scanned_cells : ℕ → Cell
scanned_cells zero = cell t_number 0 5
scanned_cells (suc zero) = cell t_broken_heart 3 0
scanned_cells (suc (suc zero)) = cell t_char 0 0
scanned_cells (suc (suc (suc zero))) = cell t_pair 0 1
scanned_cells (suc (suc (suc (suc p)))) = cell t_char 0 0

abbrev scanned_heap : Heap
scanned_heap = record old_heap { cells = scanned_cells; free = 4 }

PointsOld_lem : (p : ℕ) → p < 2 → PointsOld snapshot p
unfolding points_car points_cdr
PointsOld_lem zero lt = (λ e. ground (arith, e), λ e. ground (arith, e))
PointsOld_lem (suc zero) lt = (λ e. (omega arith, refl), λ e. (omega arith, refl))
PointsOld_lem (suc (suc p)) lt = absurd (omega arith)

no_heart_lem : (p : ℕ) → p < 2 → type_at old_heap p ≢ t_broken_heart
no_heart_lem zero lt e = omega arith
no_heart_lem (suc zero) lt e = omega arith
no_heart_lem (suc (suc p)) lt e = omega arith

no_elements : (p : ℕ) → p < 2 → element_count old_heap p ≡ 0
no_elements zero lt = refl
no_elements (suc zero) lt = refl
no_elements (suc (suc p)) lt = absurd (omega arith)

snapshot-IsWellFormed : IsWellFormed snapshot
snapshot-IsWellFormed = record {
  news_start = omega arith;
  no_heart = λ p lt hd. no_heart_lem p lt;
  small = λ p lt hd. omega (arith, no_elements p lt);
  pointers = λ p lt hd. PointsOld_lem p lt;
  elements = λ p i lt hd below. absurd (omega (arith, no_elements p lt));
}

first-Space : Space snapshot [] old_heap
first-Space = record {
  free_at = refl;
  old = λ p lt. inl refl;
  old_bytes = λ p lt. refl;
  front = λ q l l'. absurd (omega arith);
  base_at = refl;
}

forwarded_lem :
    (p : ℕ) → p < 2 → (scanned_cells p ≡ old_cells p) ⊎ IsForwarded snapshot (1 ∷ []) scanned_heap p
forwarded_lem zero lt = inl refl
forwarded_lem (suc zero) lt = inr (refl, refl, (inl (refl, refl), λ i below. absurd (omega arith)))
forwarded_lem (suc (suc p)) lt = absurd (omega arith)

scanned-Space : Space snapshot (1 ∷ []) scanned_heap
scanned-Space = record {
  free_at = refl;
  old = forwarded_lem;
  old_bytes = λ p lt. refl;
  front = λ q l l'. absurd (omega arith);
  base_at = refl;
}

scanned-Raw : Raw snapshot scanned_heap 1 3
scanned-Raw = record {
  old = omega arith;
  alive = no_heart_lem 1 (omega arith);
  kind = inl refl;
  points = PointsOld_lem 1 (omega arith);
  same_type = refl;
  same_car = refl;
  same_cdr = refl;
  bytes = λ e i lt. refl;
}

gc_copy-Forwards_example : Forwards snapshot [] old_heap 1 (gc_copy 1 old_heap)
gc_copy-Forwards_example =
    gc_copy-Forwards snapshot [] old_heap 1 snapshot-IsWellFormed first-Space (omega arith) refl

scan_cell-Advances_example : Advances snapshot [] 1 [] scanned_heap (scan_cell 3 scanned_heap)
scan_cell-Advances_example =
    scan_cell-Advances snapshot [] 1 [] scanned_heap snapshot-IsWellFormed
      (record { space = scanned-Space; done = tt; pending = (scanned-Raw, tt) })

scan_loop-Collected_example :
    (heap : Heap) × (scan_loop 5 3 scanned_heap ≡ ok tt heap) × Collected snapshot scanned_heap heap
scan_loop-Collected_example =
    scan_loop-Collected snapshot (1 ∷ []) scanned_heap 5 snapshot-IsWellFormed scanned-Space
      (scanned-Raw, tt) (omega arith)
