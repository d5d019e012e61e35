-- ===== src/Tests/Display.antt =====
-- A string of a quote and a line end, written and read back.
use mes.Base.{ℕ, zero, suc, ◌≡◌, refl, List, [], ◌∷◌, arith, ◌==◌, if◌then◌else◌}
use mes.Display.{Output, Surroundings}
use mes.Display.Helper.{write_}
use mes.Display.ReadBack.{AreBytes, ReadsBack, write_-ReadsBack}
use mes.Heap.{Heap, ok, abort, cell}
use mes.Heap.Const.{t_bytes, t_string, cell_unspecified}
use mes.Reader.Character.{reader_read_string}
use mes.Strings.{text_of}

abbrev quote_heap : Heap
quote_heap = record {
  cells = λ p. if p == 20 then cell t_string 2 21 else cell t_bytes 3 0;
  bytes = λ p i. if i == 0 then 34 else if i == 1 then 10 else 0;
  free = 23;
  base = 2;
  arena_size = 100;
  max_string = 100;
}

abbrev quiet : Surroundings
quiet = record { apply_printer = λ p l o. abort; address = λ p. p }

abbrev no_output : Output
no_output = record { heap = quote_heap; depth = 0; written = [] }

quote_AreBytes : AreBytes (text_of quote_heap 20) 2
quote_AreBytes zero lt = omega arith
quote_AreBytes (suc zero) lt = omega arith
quote_AreBytes (suc (suc i)) lt = absurd (omega arith)

write_-ReadsBack_example :
    (text : List ℕ) × (write_ quiet 3 20 no_output
      ≡ ok cell_unspecified (record no_output { depth = 4; written = 34 ∷ text }))
    × ReadsBack (text_of quote_heap 20) 2 quote_heap text (b'x' ∷ []) (reader_read_string 5)
write_-ReadsBack_example =
    write_-ReadsBack quiet 2 5 20 no_output quote_heap (b'x' ∷ []) refl quote_AreBytes (omega arith)
      (omega arith)
