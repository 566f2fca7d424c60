-- ===== src/StrictHeap/Run.antt =====
-- etc/new_heap.c: how a call ends, and what the file is built with.
use yalnix_os_project.Base.{ℕ, Bool}
use yalnix_os_project.UserHeap.State.{UserHeap, Link}
use yalnix_os_project.UserHeap.Brk.{init_heap, grow_heap}

-- `aborted` is `helper_abort`; `spent` is a walk that runs out of fuel.
pub data Run {ℓ} (A : Type ℓ) : Type ℓ where
  done : A → Run A
  aborted : Run A
  spent : Run A

infixl 5 ◌>>=◌
abbrev pub ◌>>=◌ {ℓ κ} : {A : Type ℓ} {B : Type κ} → Run A → (A → Run B) → Run B
done a >>= f = f a
aborted >>= f = aborted
spent >>= f = spent

-- `IN_KERNEL`, `USER_LIB`, and the functions that the file declares and leaves to what includes it;
-- and what the variable `last` of `malloc` holds before it is assigned.
pub record Build : Type 0 where
  pub in_kernel : Bool
  pub user_lib : Bool
  pub init_heap : UserHeap → UserHeap
  pub grow_heap : ℕ → UserHeap → ℕ × UserHeap
  pub unset : ℕ

-- The build that includes the file with the functions of libc.c.
abbrev pub built : Bool → Link → Build
built k link = record {
  in_kernel = k;
  user_lib = link.user_lib;
  init_heap = init_heap link;
  grow_heap = grow_heap link;
  unset = link.unset;
}
