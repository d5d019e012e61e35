-- ===== src/Tests/Vector.antt =====
-- Vectors of the sample heap.
use mes.Base.{◌≡◌, refl, arith}
use mes.Heap.{Heap, ok}
use mes.Heap.Const.{cell_unspecified}
use mes.Tests.{sample, sample-Room}
use mes.Vector.{vector_ref_, vector_set_x_}
use mes.Vector.Access.{IsSlot, Represents, vector_ref_-set_x_}

abbrev slot_1 : IsSlot sample 37 1
slot_1 = record {
  vector = refl;
  below = omega arith;
  index = omega arith;
  small = omega arith;
  elements = omega arith;
  apart = omega arith;
}

vector_ref_-set_x__example :
    (h' : Heap) × (vector_set_x_ 37 1 24 sample ≡ ok cell_unspecified h')
    × Represents sample 24 (vector_ref_ 37 1 h')
vector_ref_-set_x__example =
    vector_ref_-set_x_ sample 37 1 24 slot_1 (omega arith) (omega arith) (sample-Room (omega arith))
