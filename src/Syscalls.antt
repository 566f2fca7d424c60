-- ===== src/Syscalls.antt =====
-- etc/yuserlib/yuser/calls.c and include/yalnix.h: the system calls of user programs.
pub mod Codes
pub mod Calls
pub mod Print
pub mod Unserved
pub mod Refused
pub mod Tests
use Prim.Native.Nat.{bit_or}
use yalnix_os_project.Base.{ℕ, ◌-◌, Option, none, some, true}
use yalnix_os_project.Machine.{word}
use yalnix_os_project.UserHeap.State.{UserHeap, Link}
use yalnix_os_project.UserHeap.Usage.{helper_check_heap}

abbrev pub yalnix_prefix : ℕ
yalnix_prefix = 0xabcdef00

-- `( n | YALNIX_PREFIX)`
abbrev pub prefixed : ℕ → ℕ
prefixed n = bit_or n yalnix_prefix

-- The stubs, with their arguments as words.
pub data Call : Type 0 where
  nop : ℕ → ℕ → ℕ → ℕ → Call
  fork : Call
  exec : ℕ → ℕ → Call
  exit : ℕ → Call
  wait : ℕ → Call
  get_pid : Call
  sys_brk : ℕ → Call
  delay : ℕ → Call
  tty_read : ℕ → ℕ → ℕ → Call
  tty_write : ℕ → ℕ → ℕ → Call
  read_sector : ℕ → ℕ → Call
  write_sector : ℕ → ℕ → Call
  pipe_init : ℕ → Call
  pipe_read : ℕ → ℕ → ℕ → Call
  pipe_write : ℕ → ℕ → ℕ → Call
  sem_init : ℕ → ℕ → Call
  sem_up : ℕ → Call
  sem_down : ℕ → Call
  lock_init : ℕ → Call
  acquire : ℕ → Call
  release : ℕ → Call
  cvar_init : ℕ → Call
  cvar_wait : ℕ → ℕ → Call
  cvar_signal : ℕ → Call
  cvar_broadcast : ℕ → Call
  reclaim : ℕ → Call
  shared_pages : ℕ → Call
  custom0 : ℕ → ℕ → ℕ → ℕ → Call
  custom1 : ℕ → ℕ → ℕ → ℕ → Call
  custom2 : ℕ → ℕ → ℕ → ℕ → Call

-- What the stubs put into the registers: the code, and four arguments.
pub record Request : Type 0 where
  pub code : ℕ
  pub a : ℕ
  pub b : ℕ
  pub c : ℕ
  pub d : ℕ

abbrev pub send : ℕ → ℕ → ℕ → ℕ → ℕ → Request
send n a b c d = record { code = prefixed n; a = a; b = b; c = c; d = d }

-- The arguments of each stub's `YSYSCALL`, with the number of its code in yalnix.h.
unfoldable pub request : Call → Request
request (nop w x y z) = send 0x50 w x y z
request fork = send 0x1 0 0 0 0
request (exec w x) = send 0x2 w x 0 0
request (exit w) = send 0x3 w 0 0 0
request (wait w) = send 0x4 w 0 0 0
request get_pid = send 0x5 0 0 0 0
request (sys_brk w) = send 0x6 w 0 0 0
request (delay w) = send 0x7 w 0 0 0
request (tty_read w x y) = send 0x21 w x y 0
request (tty_write w x y) = send 0x22 w x y 0
request (read_sector w x) = send 0x41 w x 0 0
request (write_sector w x) = send 0x42 w x 0 0
request (pipe_init w) = send 0x48 w 0 0 0
request (pipe_read w x y) = send 0x49 w x y 0
request (pipe_write w x y) = send 0x4a w x y 0
request (sem_init w x) = send 0x60 w x 0 0
request (sem_up w) = send 0x61 w 0 0 0
request (sem_down w) = send 0x62 w 0 0 0
request (lock_init w) = send 0x63 w 0 0 0
request (acquire w) = send 0x64 w 0 0 0
request (release w) = send 0x65 w 0 0 0
request (cvar_init w) = send 0x66 w 0 0 0
request (cvar_wait w x) = send 0x69 w x 0 0
request (cvar_signal w) = send 0x67 w 0 0 0
request (cvar_broadcast w) = send 0x68 w 0 0 0
request (reclaim w) = send 0x6a w 0 0 0
request (shared_pages w) = send 0x80 w 0 0 0
request (custom0 w x y z) = send 0x70 w x y z
request (custom1 w x y z) = send 0x71 w x y z
request (custom2 w x y z) = send 0x72 w x y z

-- `int $04`, as the machine and the kernel answer it with the value for `rc`.
abbrev pub Trap : Type 0
Trap = Request → ℕ

-- `YSYSCALL`: the heap is checked before and after.
unfoldable pub checked_call : Link → Trap → Call → UserHeap → Option (ℕ × UserHeap)
checked_call link trap call s = elim (helper_check_heap link s) [
  | none ↦ none
  | some (_, s1) ↦ elim (helper_check_heap link s1) [
    | none ↦ none
    | some (_, s2) ↦ some (trap (request call), s2)
  ]
]

-- `_Exit`, a `YSYSCALL_NR`: the heap is not checked. The value is what register 0 holds if the trap
-- comes back; the stub does not pass it on.
unfoldable pub exit_call : Trap → ℕ → ℕ
exit_call trap status = trap (request (exit status))

-- `exit`, `_exit` and `Exit` of libc.c.
unfoldable pub exit_program : Trap → ℕ → ℕ
exit_program trap status = exit_call trap status

-- `BadLib`, with which libc.c answers library calls that are not for user programs.
unfoldable pub bad_lib : Trap → ℕ
bad_lib trap = exit_call trap (word - 1)

-- `SysBrk`, a `YSYSCALL_NOCHECK`, as the heap's functions call it.
unfoldable pub link_through : Trap → ℕ → Link
link_through trap unset = record {
  user_lib = true;
  sys_brk = λ s addr. trap (request (sys_brk addr));
  unset = unset;
}
