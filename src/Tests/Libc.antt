-- ===== src/Tests/Libc.antt =====
-- The C library of lib/mes on numbers.
use mes.Base.{ℕ, ◌-◌, ◌^◌, ◌≤◌, ◌≡◌, refl, inl, inr, true, some, List, [], arith, length}
use mes.Libc.Division.{uldiv}
use mes.Libc.Division.Long.{uldiv-div_mod}
use mes.Libc.Number.{ntoab, abtol}
use mes.Libc.Number.Print.{ntoab-fits}
use mes.Libc.Number.RoundTrip.{abtol-ntoab}

uldiv-div_mod_example : uldiv 1000 7 ≡ some (142, 6)
uldiv-div_mod_example = uldiv-div_mod 1000 7 (omega arith) (omega arith)

ntoab-fits_example : (text : List ℕ) × (ntoab 1000 16 true ≡ some text) × (length text ≤ 23)
ntoab-fits_example = ntoab-fits 1000 16 true (omega arith) (omega arith)

abtol-ntoab_example :
    (text : List ℕ) × (ntoab (2 ^ 64 - 7) 10 true ≡ some text)
    × (abtol text 10 ≡ some (2 ^ 64 - 7, []))
abtol-ntoab_example = abtol-ntoab (2 ^ 64 - 7) 10 (inr (inl refl)) (inr (omega arith, omega arith))
