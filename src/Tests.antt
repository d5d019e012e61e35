-- ===== src/Tests.antt =====
-- Concrete heaps, and the theorems applied to them.
mod Collector
mod Collection
mod Display
mod Ports
mod Search
mod Eval
mod Strings
mod Reader
mod Sort
mod Core
mod Math
mod Hash
mod Libc
mod Gc
mod Vector
mod Text
use mes.Base.{ℕ, ◌-◌, ◌^◌, ◌≤◌, List, [], ◌∷◌, arith, ◌==◌, if◌then◌else◌}
use mes.Heap.{Cell, Heap, cell}
use mes.Heap.Agree.{Room}
use mes.Heap.Const.{t_bytes, t_number, t_pair, t_special, t_vector, cell_nil}

-- A heap of the given cells with room for 60 more.
abbrev pub cells_of : List (ℕ × Cell) → ℕ → Cell
cells_of [] p = cell t_special 0 0
cells_of ((q, c) ∷ cs) p = if q == p then c else cells_of cs p

-- `(7 2)` at 24, `(2 7)` at 26, `(7 2 . 2)` at 28, the circle at 30, `(-3 -7)` at 31, `((7 . 2) (2
-- . 7))` at 35, a vector of two elements at 37, a bytevector of two bytes at 38, a pair of a vector and a number at 44.
abbrev pub sample_cells : List (ℕ × Cell)
sample_cells =
    (20, cell t_number 0 7)
    ∷ (21, cell t_number 0 2)
    ∷ (22, cell t_number 0 (2 ^ 64 - 7))
    ∷ (23, cell t_number 0 (2 ^ 64 - 3))
    ∷ (24, cell t_pair 20 25)
    ∷ (25, cell t_pair 21 cell_nil)
    ∷ (26, cell t_pair 21 27)
    ∷ (27, cell t_pair 20 cell_nil)
    ∷ (28, cell t_pair 20 29)
    ∷ (29, cell t_pair 21 21)
    ∷ (30, cell t_pair 20 30)
    ∷ (31, cell t_pair 23 32)
    ∷ (32, cell t_pair 22 cell_nil)
    ∷ (33, cell t_pair 20 21)
    ∷ (34, cell t_pair 21 20)
    ∷ (35, cell t_pair 33 36)
    ∷ (36, cell t_pair 34 cell_nil)
    ∷ (37, cell t_vector 2 40)
    ∷ (40, cell t_number 0 5)
    ∷ (41, cell t_number 0 6)
    ∷ (38, cell t_bytes 2 0)
    ∷ (39, cell t_number 0 1)
    ∷ (44, cell t_pair 37 20)
    ∷ (42, cell t_pair 20 43)
    ∷ (43, cell t_pair 23 cell_nil)
    ∷ []

abbrev pub sample : Heap
sample = record {
  cells = cells_of sample_cells;
  bytes = λ p i. 200;
  free = 50;
  base = 2;
  arena_size = 100;
  max_string = 1000;
}

pub sample-Room : {n : ℕ} → n ≤ 52 → Room n sample
sample-Room le = record { above = omega arith; fits = omega arith; small = omega arith }
