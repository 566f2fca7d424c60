-- ===== src/Syscalls/Calls.antt =====
-- The system calls of a program whose heap is in order.
use yalnix_os_project.Base.{ℕ, ◌≡◌, refl, Option, some, List, length}
use yalnix_os_project.UserHeap.State.{UserHeap, Link}
use yalnix_os_project.UserHeap.Chain.{Cell}
use yalnix_os_project.UserHeap.Serve.{Sound}
use yalnix_os_project.UserHeap.Usage.{Usage, helper_check_heap}
use yalnix_os_project.UserHeap.Accounts.{Checked, checked, in_use, helper_check_heap-Checked}
use yalnix_os_project.Syscalls.{Trap, Call, request, checked_call}

checked_call_lem :
    (link : Link) (trap : Trap) (c : Call) (s : UserHeap) (start n m : ℕ)
    (r : Option (Usage × UserHeap))
    → helper_check_heap link s ≡ r
    → Checked s start n m r
    → checked_call link trap c s ≡ some (trap (request c), s)
unfolding checked_call
checked_call_lem link trap c s start n m r e (checked u t) = rw (checked_call, e, e) refl

-- The checks before and after the trap leave a sound heap as it is.
pub checked_call-Sound :
    (link : Link) (trap : Trap) (c : Call) (s : UserHeap) (cs : List Cell)
    → Sound s cs
    → checked_call link trap c s ≡ some (trap (request c), s)
checked_call-Sound link trap c s cs o =
    checked_call_lem link trap c s s.heap_start (length cs) (in_use cs) (helper_check_heap link s)
      refl (helper_check_heap-Checked link s cs o)
