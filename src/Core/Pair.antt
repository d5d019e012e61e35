-- ===== src/Core/Pair.antt =====
-- `car` and `cdr` on a pair.
use mes.Base.{ℕ, ◌≡◌, arith}
use mes.Core.{car, cdr}
use mes.Heap.{Heap, ok, type_at, car_at, cdr_at}
use mes.Heap.Const.{t_pair}

pub car_ok : (x : ℕ) (h : Heap) → type_at h x ≡ t_pair → car x h ≡ ok (car_at h x) h
unfolding car
car_ok x h t = ground arith

pub cdr_ok : (x : ℕ) (h : Heap) → type_at h x ≡ t_pair → cdr x h ≡ ok (cdr_at h x) h
unfolding cdr
cdr_ok x h t = ground arith
