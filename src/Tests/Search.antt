-- ===== src/Tests/Search.antt =====
-- A needle of two bytes in a haystack of five.
use mes.Base.{ℕ, ◌==◌, if◌then◌else◌}
use mes.Libc.Search.{memmem, First, memmem-First}

abbrev haystack_memory : ℕ → ℕ
haystack_memory p =
    if p == 11
    then b'a'
    else if p == 13
    then b'a'
    else if p == 14
    then b'b'
    else if p == 30
    then b'a'
    else if p == 31
    then b'b'
    else b'x'

memmem-First_example : First haystack_memory 4 2 30 10 (memmem haystack_memory 10 5 30 2)
memmem-First_example = memmem-First haystack_memory 10 5 30 2
