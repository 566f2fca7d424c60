-- ===== src/Lib.antt =====
-- A verification library for the Yalnix kernel (yalnix_project/).
--
-- The kernel boots in KernelStart (yalnix_project/kernelstart.c): it sets up the frame bitmap, the
-- process globals and the trap vector, builds the page table of region 0, catches up with the heap
-- growth so far, creates the idle process with a region 1 table and a stack page, and turns virtual
-- memory on. From then on the kernel's heap moves its break through SetKernelBrk
-- (yalnix_project/memory.c), and traps go through the vector (yalnix_project/trap.c).
--
--   Base         lists, tests, integers, maps and loops that the other modules share
--   Machine      yalnix_project/include/hardware.h and ykernel.h: constants, Pte, UserContext
--   Panic        helper_abort as the outcome `halted`
--   Memory       yalnix_project/memory.c. State holds its static variables as the record Memory;
--                Frames has MarkFrameUsed, MarkFrameFree, IsFrameFree, InitPhysicalMemory,
--                AllocFrame and FreeFrame; Paging has AddrToVpn, ClearPte and MapPage; Brk has
--                SetKernelBrk; Region0 has BuildRegion0PageTable, CreateRegion1PageTable and
--                SyncKernelBrkBeforeVM. Malloc is the interface to the heap. Boot follows the
--                state of the memory manager through the boot.
--   Kernel       process.h, the globals of process.c and trap.c, and what the framework supplies
--   Trap         yalnix_project/trap.c
--   Process      yalnix_project/process.c: InitProcessSystem and CreateIdleProcess
--   KernelStart  yalnix_project/kernelstart.c
--   UserHeap     yalnix_project/new_heap.c, the allocator of user programs, on the break functions of
--                yalnix_project/etc/yuserlib/yuser/libc.c. State has the block headers by address
--                and the globals, Brk the break and the growth, Block the checks and the merging and
--                splitting of blocks, Alloc malloc and free, Realloc calloc and realloc. Chain and
--                Sound say what a heap in order is, Brk/Back moves the break and back, and Overlap
--                puts sbrk next to malloc; Usage is helper_check_heap. Regions, Refines, Returns,
--                Resizes, Zeroes and Programs are the heap as programs see it, a list of regions;
--                the other files are proofs.
--   StrictHeap   yalnix_project/etc/new_heap.c, the copy of the heap whose kernel build aborts on a
--                corrupted block, on the same state. Run is how a call ends; Block, Alloc, Realloc
--                and Usage are the operations; Follows puts them next to those of UserHeap.
--   Syscalls     yalnix_project/etc/yuserlib/yuser/calls.c, the stubs of the system calls, with the
--                codes of yalnix_project/include/yalnix.h, the exits of libc.c and, in Print,
--                TtyPrintf of ttylib.c. Refused puts them on top of the kernel's trap handler and
--                under the heap; Unserved is the heap of a program that this kernel gives no memory.
--   Fancy        yalnix_project/fancy/: init, console and shell, on the answers of their system calls.
--                Init has the places where main stands as states; Init/System puts it next to its
--                children, Init/Table and Init/Collect are its table of pids, Init/Refused runs it
--                under this kernel. Console and Shell have one round of the loop on a line.
--   Loader       yalnix_project/template.c: LoadProgram. Plan has the sizes and addresses, Args and
--                Block the argument block, Image and Outcome the whole. Bytes is the memory that it
--                writes: words, blocks and C strings.
--
-- A function of the kernel is a function on the state: it takes the state and returns it with its
-- result. ERROR is the status `error`, or `none` where a frame number is returned; NULL is 0. Each
-- function has the source's name in lower case with underscores (SetKernelBrk is set_kernel_brk);
-- a loop body or a tail of a function is a function of its own, named for what it does. Frame and
-- page numbers that the source tests against 0 are integers, pointers and words are 32 bits wide.
-- A for loop of the kernel recurs on the number of rounds left, so the kernel needs no fuel. The walks
-- of the user heap over its blocks take fuel, the length of the heap and two: each block takes at
-- least 24 bytes, and a heap that got no memory has one block all the same. The results on malloc,
-- free and garbage_collect include that they return. malloc's variable last is read before it is assigned when
-- an initialised heap starts at NULL; what it holds then is the parameter `unset`.
--
-- LoadProgram's arguments are lists of characters, its file is what open, LoadInfo and read show, and
-- malloc's block is a parameter; strings are read back from the buffer with its length as fuel.
--
-- The page tables and process control blocks live in the kernel's heap, whose code is the
-- framework's library: the model takes malloc as a parameter that answers with a block and with the
-- break addresses that it hands to SetKernelBrk. The table stores are maps from addresses.
-- helper_new_pid, the addresses of DoIdle and of the trap vector, and the linker's page numbers are
-- parameters too. WriteRegister is recorded as a list of writes.
--
-- Not modelled: tracing, the loop of DoIdle (it traces and pauses for ever), what the template of
-- LoadProgram leaves blank (page tables and registers of the process), the user library under
-- yalnix_project/etc/yuserlib but for the break functions, the exits, TtyPrintf and the system calls,
-- the debugging word lkra, init after its count of children has gone below 0, the emulator's mutex, the software trap itself (a parameter of the calls), and
-- memset and memcpy (those of the C library, on a map of bytes), the programs
-- for trying the kernel (test/, delay.c, cvar2.c), what the programs of fancy/ print,
-- the framework's libraries and the linker scripts.
pub mod Base
pub mod Machine
pub mod Bytes
pub mod Panic
pub mod Memory
pub mod Kernel
pub mod Trap
pub mod Process
pub mod KernelStart
pub mod UserHeap
pub mod StrictHeap
pub mod Syscalls
pub mod Fancy
pub mod Loader
