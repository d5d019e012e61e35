-- ===== src/Tests/Strings.antt =====
-- Two strings of two and of one byte, and a list of them.
use mes.Base.{ℕ, ◌+◌, ◌<◌, ◌≡◌, refl, [], ◌∷◌, arith}
use mes.Heap.{Heap, ok, cell}
use mes.Heap.Alloc.{make_char, make_string}
use mes.Heap.Const.{t_char, t_number, t_pair, t_string, cell_nil, cell_unspecified}
use mes.Strings.{string_ref}
use mes.Strings.Append.{byte_of, string_append-bytes, string_ref-set_x}
use mes.Strings.Convert.{string_append, string_set_x}
use mes.Tests.{cells_of}

abbrev strings : Heap
strings = record {
  cells = cells_of (
      (100, cell t_string 2 50)
      ∷ (101, cell t_string 1 51)
      ∷ (102, cell t_pair 100 103)
      ∷ (103, cell t_pair 101 cell_nil)
      ∷ (104, cell t_number 0 1)
      ∷ (105, cell t_char 0 65)
      ∷ []);
  bytes = λ p i. p + i;
  free = 110;
  base = 1;
  arena_size = 1000;
  max_string = 100;
}

string_append-bytes_example :
    (buf : ℕ → ℕ) × (string_append 3 102 strings ≡ make_string buf 3 strings)
    × ((i : ℕ) → i < 3 → buf i ≡ byte_of strings (100 ∷ 101 ∷ []) i)
string_append-bytes_example =
    string_append-bytes 3 110 102 (100 ∷ 101 ∷ []) strings (omega arith)
      (
        (λ e. omega arith),
        omega arith,
        refl,
        refl,
        ((λ e. omega arith), omega arith, refl, refl, refl),
      )
      (refl, (refl, tt)) (omega arith)

string_ref-set_x_example :
    (h' : Heap) × (string_set_x 100 104 105 strings ≡ ok cell_unspecified h')
    × (h'.cells ≡ strings.cells)
    × (string_ref 100 104 h' ≡ make_char 65 h')
string_ref-set_x_example =
    string_ref-set_x 100 104 105 strings refl refl refl (omega arith) (omega arith)
