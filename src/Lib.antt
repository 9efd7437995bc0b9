-- ===== src/Lib.antt =====
-- PageFaultOS for RISC-V 64, the kernel under kern/ of the repository: a model of its core and proofs
-- about it.
--
-- The parts and where they are modelled:
--   Kernel.antt       what the functions share: a hart's interrupt state and current process
--                     (proc/proc.h), the locks, `kmem`, memory, the process table, the pipes, the buffers
--   Kernel/Run.antt   outcomes: a result and a state, a panic, a spin for ever, or no rounds left
--   Sync/Spinlock     kern/sync/spinlock.cpp and kern/trap/intr.cpp
--   Sync/Harts        kern/sync/spinlock.cpp with all harts at once, access by access
--   Sync/Sleeplock    kern/sync/sleeplock.cpp
--   Mm/Layout         the constants and macros of kern/libs/riscv.h and kern/mm/memlayout.h
--   Mm/Kalloc         kern/mm/kalloc.cpp: kinit, FreeRange, kfree, kalloc, freemem_amount
--   Mm/PageTable      kern/mm/vm.cpp: walk, walkaddr, KGetKaddr, MapPages, kvmMap, vmunmap
--   Mm/Uvm            kern/mm/vm.cpp: the Uvm functions, freewalk, Kvmfree, proc_kpagetable
--   Mm/Copy           kern/mm/vm.cpp: copyout, copyin, copyinstr
--   Mm/Bytes          the bytes of the memory of words, and memmove() on it
--   Mm/Kvm            kern/mm/vm.cpp: kvmInit
--   Proc, Proc/*      kern/proc/proc.cpp: the table, allocation, scheduling, files, waiting
--   Proc/UserCopy     either_copyin, either_copyout, and copyout2, copyin2, copyinstr2 of kern/mm/vm.cpp
--   Pipe              kern/proc/pipe.cpp
--   Fs/Bio, Fs/File   kern/fs/bio.cpp and kern/fs/file.cpp
--   Fs/Vfs            kern/fs/vfs.cpp: paths and the lookup of a mounted file system; Vfs/Handles the file
--                     table, Vfs/Mounts mounting, Vfs/Calls what opens, reads, writes and makes pipes
--   Fs/Fat            kern/fs/fat32.cpp: the sector buffer and the allocation table; Fat/Search free
--                     clusters, Fat/Chain freeing, Fat/Seek seeking, Fat/Read reading, Fat/Names long names,
--                     Fat/Entries the entries of a directory
--   Fs/Device         kern/fs/devicefs.cpp, as an instance of the interface of Fs/Vfs/Calls
--   Libs/CString      kern/libs/string.c, over a memory of bytes
--   Console           kern/console/console.cpp, in the build for the K210
--   Libs/Printf       kern/libs/printf.c: printint, printptr and printf as the characters that they print
--   Proc/Exit, Fork   kern/proc/proc.cpp: exit(), fork() and clone(); Proc/Exec is kern/proc/exec.cpp,
--                     with Proc/Arguments for what it pushes on the stack
--   Trap              kern/trap/trap.cpp, in the build for the K210
--   Syscall           kern/syscall/syscall.cpp: arguments and dispatch; Syscall/Table its table
--   Syscall/Files     kern/syscall/syscallfile.cpp, with Syscall/Words for its results, with Syscall/Mapping for mmap() and munmap()
--   Syscall/Process   kern/syscall/syscallproc.cpp, with Syscall/Execve for execve()
--   Tests             runs on concrete kernels, pipes and strings
-- Prelude holds the names of the libraries and the lemmas that all parts use. A function has its name in
-- the source in lower case with underscores (MapPages is map_pages, UvmDealloc is uvm_dealloc).
--
-- The parts meet in the state `Kernel`: vm.cpp takes pages from kalloc.cpp, which runs under a spin lock,
-- whose functions change the hart's interrupt state; proc.cpp uses all of these, and pipes and the sleep
-- locks use sleep() and wakeup() of proc.cpp. A lock is given to acquire() and release() as a `LockRef`,
-- the place where it is kept.
--
-- One hart is modelled, but for Sync/Harts: a lock that is taken elsewhere makes acquire() spin. Sync/Harts
-- takes the memory to be sequentially consistent. A file system is a record of its operations, the block
-- device of a volume a function from sectors to bytes. Memory is a function from
-- addresses to 64-bit words at multiples of 8. Numbers wrap as the C types do where the code can get there.
-- A pointer to a process is an index of procTable; a channel of sleep() is a value of `Chan`. The
-- assembly routine pswitch() is an argument of what calls it, as are the block driver and addresses that
-- the linker chooses, and the firmware's output of a character. What the trap handlers and the table of system
-- calls take is a record each, `Board` and `Calls`. initlock() copies a name through a pointer that nothing
-- sets; what that does is the argument `name_lock`, for which a test writes at address 0.
--
-- Loops that data bounds run on fuel. MapPages() and vmunmap() get one round for each page below MAXVA or of
-- the range, copyout() and copyin() one for each page of the length and three more, FreeRange() one for each
-- page below its end. wait(), sleeplocks and the scheduler's waiting take fuel as an argument, as the source
-- bounds them by nothing, and freewalk() takes the depth of the table.
-- A search for a free cluster gets one round for each cluster, tf_free_clusterchain() three rounds, which
-- are enough since a cleared entry ends it, and a text that ends in an array one round for each character.
--
-- Not modelled: the drivers, the firmware and the assembly (not the kernel's own C++ or third-party
-- code), the output of panic() and of the traps, and, for now, what walks and changes directories of
-- the FAT file system and writes its files, and the user programs. vfscalAbPath(), which
-- sys_execve() calls, has no definition in the source, and is an argument.
pub mod Prelude
pub mod Kernel
pub mod Sync
pub mod Mm
pub mod Libs
pub mod Console
pub mod Fs
pub mod Pipe
pub mod Proc
pub mod Syscall
pub mod Tests
pub mod Trap
