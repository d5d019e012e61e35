-- ===== src/Tests/Gc.antt =====
-- The collector on the sample heap, whose new space starts at 44.
use mes.Base.{refl, inl, inr, arith}
use mes.Gc.{gc_copy}
use mes.Gc.Copy.{IsObject, Copies, gc_copy-Copies}
use mes.Tests.{sample}

abbrev vector_object : IsObject sample 37
vector_object = record {
  below = omega arith;
  no_heart = λ e. omega arith;
  elements = omega arith;
  elements_below = inr (omega arith);
}

abbrev number_object : IsObject sample 20
number_object = record {
  below = omega arith;
  no_heart = λ e. omega arith;
  elements = omega arith;
  elements_below = inl refl;
}

gc_copy-Copies_example : Copies sample 37 (gc_copy 37 sample)
gc_copy-Copies_example = gc_copy-Copies sample 37 vector_object
