-- ===== src/StrictHeap/Follows.antt =====
-- What the build of etc/new_heap.c has to do with new_heap.c.
use yalnix_os_project.Base.{
  ℕ, ◌≤◌, ◌<◌, ◌≡◌, Bool, true, false, Option, none, some, if◌then◌else◌, arith,
}
use yalnix_os_project.UserHeap.State.{UserHeap}
use yalnix_os_project.UserHeap.Alloc.{Scan, found, missed, ◌>>=◌ as ◌>>?◌}
use yalnix_os_project.StrictHeap.Run.{Run, done, aborted, spent, ◌>>=◌}

-- A call that starts with `w` complaints: it ends alike, or, in the kernel, it aborts where new_heap.c
-- ends with more complaints or runs out of fuel. `count` is the number of complaints of a result.
pub data Follows {A : Type 0} (k : Bool) (count : A → ℕ) (w : ℕ) : Run A → Option A → Type 0 where
  alike : (a : A) → w ≤ count a → Follows k count w (done a) (some a)
  stops : (a : A) → k ≡ true → w < count a → Follows k count w aborted (some a)
  lost : k ≡ true → Follows k count w aborted none
  both_spent : Follows k count w spent none

abbrev pub heap_count : UserHeap → ℕ
heap_count s = s.warnings

abbrev pub result_count : ℕ × UserHeap → ℕ
result_count r = (r.1).warnings

abbrev pub scan_count : Scan → ℕ
scan_count (found bp s) = s.warnings
scan_count (missed bp s) = s.warnings

pub Follows-lower :
    {A : Type 0} (k : Bool) (count : A → ℕ) (w w' : ℕ) (r : Run A) (q : Option A)
    → w' ≤ w
    → Follows k count w r q
    → Follows k count w' r q
Follows-lower k count w w' r q le (alike a at) = alike a (omega arith)
Follows-lower k count w w' r q le (stops a kernel more) = stops a kernel (omega arith)
Follows-lower k count w w' r q le (lost kernel) = lost kernel
Follows-lower k count w w' r q le both_spent = both_spent

-- The kernel has stopped, and the other goes on.
Follows-stopped :
    {A : Type 0} (k : Bool) (count : A → ℕ) (w w' : ℕ) (r : Run A) (q : Option A)
    → k ≡ true
    → w' < w
    → Follows k count w r q
    → Follows k count w' aborted q
Follows-stopped k count w w' r q kernel lt (alike a at) = stops a kernel (omega arith)
Follows-stopped k count w w' r q kernel lt (stops a same more) = stops a kernel (omega arith)
Follows-stopped k count w w' r q kernel lt (lost same) = lost kernel
Follows-stopped k count w w' r q kernel lt both_spent = lost kernel

pub Follows-bind :
    {A B : Type 0} (k : Bool) (count : A → ℕ) (count' : B → ℕ) (w : ℕ) (r : Run A) (q : Option A)
    (f : A → Run B) (g : A → Option B)
    → Follows k count w r q
    → ((a : A) → Follows k count' (count a) (f a) (g a))
    → Follows k count' w (r >>= f) (q >>? g)
Follows-bind k count count' w r q f g (alike a at) next =
    Follows-lower k count' (count a) w (f a) (g a) at (next a)
Follows-bind k count count' w r q f g (stops a kernel more) next =
    Follows-stopped k count' (count a) w (f a) (g a) kernel more (next a)
Follows-bind k count count' w r q f g (lost kernel) next = lost kernel
Follows-bind k count count' w r q f g both_spent next = both_spent

-- A test that both make.
pub Follows-if :
    {A : Type 0} (k : Bool) (count : A → ℕ) (w : ℕ) (b : Bool) (r r' : Run A) (q q' : Option A)
    → Follows k count w r q
    → Follows k count w r' q'
    → Follows k count w (if b then r else r') (if b then q else q')
Follows-if k count w true r r' q q' h h' = h
Follows-if k count w false r r' q q' h h' = h'
