-- ===== src/Syscalls/Codes.antt =====
-- The codes of the system calls tell them apart.
use yalnix_os_project.Base.{
  ◌*◌, ◌/◌, ◌%◌, ◌<◌, ◌≡◌, refl, ◌==◌, if◌then◌else◌, Option, none, some, arith,
}
use yalnix_os_project.Machine.{word}
use yalnix_os_project.Syscalls

-- The call behind a request, by the numbers of yalnix.h; arguments that a call does not have are
-- passed over.
unfoldable pub call_of : Syscalls.Request → Option Syscalls.Call
call_of r =
    let n = r.code % 256 in
    if n == 0x50
    then some (Syscalls.nop r.a r.b r.c r.d)
    else if n == 0x1
    then some Syscalls.fork
    else if n == 0x2
    then some (Syscalls.exec r.a r.b)
    else if n == 0x3
    then some (Syscalls.exit r.a)
    else if n == 0x4
    then some (Syscalls.wait r.a)
    else if n == 0x5
    then some Syscalls.get_pid
    else if n == 0x6
    then some (Syscalls.sys_brk r.a)
    else if n == 0x7
    then some (Syscalls.delay r.a)
    else if n == 0x21
    then some (Syscalls.tty_read r.a r.b r.c)
    else if n == 0x22
    then some (Syscalls.tty_write r.a r.b r.c)
    else if n == 0x41
    then some (Syscalls.read_sector r.a r.b)
    else if n == 0x42
    then some (Syscalls.write_sector r.a r.b)
    else if n == 0x48
    then some (Syscalls.pipe_init r.a)
    else if n == 0x49
    then some (Syscalls.pipe_read r.a r.b r.c)
    else if n == 0x4a
    then some (Syscalls.pipe_write r.a r.b r.c)
    else if n == 0x60
    then some (Syscalls.sem_init r.a r.b)
    else if n == 0x61
    then some (Syscalls.sem_up r.a)
    else if n == 0x62
    then some (Syscalls.sem_down r.a)
    else if n == 0x63
    then some (Syscalls.lock_init r.a)
    else if n == 0x64
    then some (Syscalls.acquire r.a)
    else if n == 0x65
    then some (Syscalls.release r.a)
    else if n == 0x66
    then some (Syscalls.cvar_init r.a)
    else if n == 0x69
    then some (Syscalls.cvar_wait r.a r.b)
    else if n == 0x67
    then some (Syscalls.cvar_signal r.a)
    else if n == 0x68
    then some (Syscalls.cvar_broadcast r.a)
    else if n == 0x6a
    then some (Syscalls.reclaim r.a)
    else if n == 0x80
    then some (Syscalls.shared_pages r.a)
    else if n == 0x70
    then some (Syscalls.custom0 r.a r.b r.c r.d)
    else if n == 0x71
    then some (Syscalls.custom1 r.a r.b r.c r.d)
    else if n == 0x72
    then some (Syscalls.custom2 r.a r.b r.c r.d)
    else none

-- From the registers that a stub sets, the numbers of yalnix.h give back the system call and its
-- arguments.
pub call_of-request : (c : Syscalls.Call) → call_of (Syscalls.request c) ≡ some c
unfolding call_of Syscalls.request
call_of-request (Syscalls.nop w x y z) = refl
call_of-request Syscalls.fork = refl
call_of-request (Syscalls.exec w x) = refl
call_of-request (Syscalls.exit w) = refl
call_of-request (Syscalls.wait w) = refl
call_of-request Syscalls.get_pid = refl
call_of-request (Syscalls.sys_brk w) = refl
call_of-request (Syscalls.delay w) = refl
call_of-request (Syscalls.tty_read w x y) = refl
call_of-request (Syscalls.tty_write w x y) = refl
call_of-request (Syscalls.read_sector w x) = refl
call_of-request (Syscalls.write_sector w x) = refl
call_of-request (Syscalls.pipe_init w) = refl
call_of-request (Syscalls.pipe_read w x y) = refl
call_of-request (Syscalls.pipe_write w x y) = refl
call_of-request (Syscalls.sem_init w x) = refl
call_of-request (Syscalls.sem_up w) = refl
call_of-request (Syscalls.sem_down w) = refl
call_of-request (Syscalls.lock_init w) = refl
call_of-request (Syscalls.acquire w) = refl
call_of-request (Syscalls.release w) = refl
call_of-request (Syscalls.cvar_init w) = refl
call_of-request (Syscalls.cvar_wait w x) = refl
call_of-request (Syscalls.cvar_signal w) = refl
call_of-request (Syscalls.cvar_broadcast w) = refl
call_of-request (Syscalls.reclaim w) = refl
call_of-request (Syscalls.shared_pages w) = refl
call_of-request (Syscalls.custom0 w x y z) = refl
call_of-request (Syscalls.custom1 w x y z) = refl
call_of-request (Syscalls.custom2 w x y z) = refl

-- The code of every system call is a word that carries the prefix of yalnix.h above its number.
pub request-prefix :
    (c : Syscalls.Call)
    → ((Syscalls.request c).code / 256 * 256 ≡ Syscalls.yalnix_prefix)
      × ((Syscalls.request c).code < word)
unfolding Syscalls.request
request-prefix (Syscalls.nop w x y z) = (refl, omega arith)
request-prefix Syscalls.fork = (refl, omega arith)
request-prefix (Syscalls.exec w x) = (refl, omega arith)
request-prefix (Syscalls.exit w) = (refl, omega arith)
request-prefix (Syscalls.wait w) = (refl, omega arith)
request-prefix Syscalls.get_pid = (refl, omega arith)
request-prefix (Syscalls.sys_brk w) = (refl, omega arith)
request-prefix (Syscalls.delay w) = (refl, omega arith)
request-prefix (Syscalls.tty_read w x y) = (refl, omega arith)
request-prefix (Syscalls.tty_write w x y) = (refl, omega arith)
request-prefix (Syscalls.read_sector w x) = (refl, omega arith)
request-prefix (Syscalls.write_sector w x) = (refl, omega arith)
request-prefix (Syscalls.pipe_init w) = (refl, omega arith)
request-prefix (Syscalls.pipe_read w x y) = (refl, omega arith)
request-prefix (Syscalls.pipe_write w x y) = (refl, omega arith)
request-prefix (Syscalls.sem_init w x) = (refl, omega arith)
request-prefix (Syscalls.sem_up w) = (refl, omega arith)
request-prefix (Syscalls.sem_down w) = (refl, omega arith)
request-prefix (Syscalls.lock_init w) = (refl, omega arith)
request-prefix (Syscalls.acquire w) = (refl, omega arith)
request-prefix (Syscalls.release w) = (refl, omega arith)
request-prefix (Syscalls.cvar_init w) = (refl, omega arith)
request-prefix (Syscalls.cvar_wait w x) = (refl, omega arith)
request-prefix (Syscalls.cvar_signal w) = (refl, omega arith)
request-prefix (Syscalls.cvar_broadcast w) = (refl, omega arith)
request-prefix (Syscalls.reclaim w) = (refl, omega arith)
request-prefix (Syscalls.shared_pages w) = (refl, omega arith)
request-prefix (Syscalls.custom0 w x y z) = (refl, omega arith)
request-prefix (Syscalls.custom1 w x y z) = (refl, omega arith)
request-prefix (Syscalls.custom2 w x y z) = (refl, omega arith)
