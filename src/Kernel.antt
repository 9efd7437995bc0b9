-- ===== src/Kernel.antt =====
-- The state that the kernel's functions share, and the commands that run on it: a hart's
-- `struct cpu` (proc/proc.h), the locks (sync/spinlock.h), the page allocator's `kmem`
-- (mm/kalloc.cpp) and the memory that the page tables and the free list live in.
pub mod Run
use page_fault_os_for_risc_v.Prelude.{ℕ, ◌==◌, if◌then◌else◌, Bool, Option}

-- `struct spinlock`, less its name. `cpu` is the hart that holds it.
pub record Lock : Type 0 where
  pub locked : Bool
  pub cpu : Option ℕ

-- `struct cpu`: the depth of push_off() calls and whether interrupts were on before the first;
-- `intr` is the bit SSTATUS_SIE of the hart.
pub record Cpu : Type 0 where
  pub noff : ℕ
  pub intena : Bool
  pub intr : Bool

-- The anonymous struct `kmem`; the `next` of a free page is the word at its address.
pub record Kmem : Type 0 where
  pub lock : Lock
  pub freelist : ℕ
  pub npages : ℕ

-- The 64-bit word at each address that is a multiple of eight.
abbrev pub Memory : Type 0
Memory = ℕ → ℕ

-- `enum procstate`
pub data ProcState : Type 0 where
  unused : ProcState
  sleeping : ProcState
  runnable : ProcState
  running : ProcState
  zombie : ProcState

-- The channels that code sleeps on: no channel, an entry of procTable, `ticks`, the two counters of a
-- pipe, the console's read index, a sleep lock.
pub data Chan : Type 0 where
  nowhere : Chan
  on_proc : ℕ → Chan
  on_ticks : Chan
  on_reads : ℕ → Chan
  on_writes : ℕ → Chan
  on_console : Chan
  on_sleeplock : ℕ → Chan

-- `struct context`, with s0 to s11 as one function.
pub record Context : Type 0 where
  pub ra : ℕ
  pub sp : ℕ
  pub saved : ℕ → ℕ

-- `struct proc`, less its trace mask. A pointer to a process is an index of procTable, any other pointer
-- an address, 0 for null. `ofile i` is the word at &ofile[i]: from i = NOFILE on that is what stands behind
-- the array. The trap frame is in memory.
pub record Proc : Type 0 where
  pub lock : Lock
  pub state : ProcState
  pub parent : Option ℕ
  pub chan : Chan
  pub killed : ℕ
  pub xstate : ℕ
  pub pid : ℕ
  pub kstack : ℕ
  pub sz : ℕ
  pub pagetable : ℕ
  pub kpagetable : ℕ
  pub mticks : ℕ
  pub uticks : ℕ
  pub trapframe : ℕ
  pub context : Context
  pub vma : ℕ → ℕ
  pub ofile : ℕ → ℕ
  pub work_dir : ℕ → ℕ
  pub name : ℕ → ℕ

-- `class pipe`
pub record Pipe : Type 0 where
  pub readable : Bool
  pub writeable : Bool
  pub nwrite : ℕ
  pub nread : ℕ
  pub lock : Lock
  pub buf : ℕ → ℕ

-- `struct sleeplock`, less its name.
pub record Sleeplock : Type 0 where
  pub locked : Bool
  pub lk : Lock
  pub pid : ℕ

-- The `type` of a file, and `struct file` (fs/file.h); `pip` is the number of a pipe.
pub data FileKind : Type 0 where
  fd_none : FileKind
  fd_pipe : FileKind
  fd_entry : FileKind
  fd_device : FileKind

pub record File : Type 0 where
  pub filepath : ℕ → ℕ
  pub directory : ℕ
  pub size : ℕ
  pub ref : ℕ
  pub readable : ℕ
  pub writable : ℕ
  pub kind : FileKind
  pub pip : ℕ
  pub location : ℕ
  pub position : ℕ

-- `struct buf` (fs/buf.hpp), less the flag `disk`.
pub record Buf : Type 0 where
  pub valid : Bool
  pub dev : ℕ
  pub blockno : ℕ
  pub last_use_tick : ℕ
  pub sleeplock : Sleeplock
  pub refcnt : ℕ
  pub bytes : ℕ → ℕ

-- `struct console`; the indices are ints, as words of 32 bits.
pub record Console : Type 0 where
  pub buf : ℕ → ℕ
  pub read_index : ℕ
  pub write_index : ℕ
  pub lock : Lock

-- A mounted file system (fs/fs.h), less its methods and `dev`; `address` is where operator new put it.
pub record Mount : Type 0 where
  pub address : ℕ
  pub mount_pos : ℕ → ℕ
  pub special_dev : ℕ → ℕ

-- `struct vma`, a mapped region; `length` is an int, as a word of 32 bits, and `f` a pointer to a handle.
pub record Vma : Type 0 where
  pub addr : ℕ
  pub length : ℕ
  pub prot : ℕ
  pub flag : ℕ
  pub f : ℕ

-- The registers of the hart that the trap code uses; `spp` and `spie` are the bits SSTATUS_SPP and
-- SSTATUS_SPIE.
pub record Csr : Type 0 where
  pub scause : ℕ
  pub stval : ℕ
  pub sepc : ℕ
  pub stvec : ℕ
  pub satp : ℕ
  pub spp : Bool
  pub spie : Bool

-- What one hart, number `hart`, sees. `kernel_end` is the linker's symbol, `table` is procTable,
-- `current` the hart's `proc`, an index of the table, `pipes` the pipes
-- that were made, `bufs` and `buf_lock` the members of the buffer layer, `files` and
-- `ftable_lock` those of `ftable` (fs/file.cpp), `handles`, `handles_lock`, `mounted` and
-- `mounted_lock` the fileTable, fileTableLock, mountedFS and mountedFsLock of fs/vfs.cpp, `vmas` the
-- array `vma` of proc/proc.cpp.
pub record Kernel : Type 0 where
  pub hart : ℕ
  pub kernel_end : ℕ
  pub cpu : Cpu
  pub kmem : Kmem
  pub mem : Memory
  pub kern_pagetable : ℕ
  pub table : ℕ → Proc
  pub current : Option ℕ
  pub init_proc : Option ℕ
  pub ticks : ℕ
  pub tickslock : Lock
  pub pipes : ℕ → Pipe
  pub bufs : ℕ → Buf
  pub buf_lock : Lock
  pub files : ℕ → File
  pub ftable_lock : Lock
  pub handles : ℕ → File
  pub handles_lock : Lock
  pub mounted : ℕ → Option Mount
  pub mounted_lock : Lock
  pub console : Console
  pub vmas : ℕ → Vma
  pub csr : Csr

unfoldable pub write_word : Memory → ℕ → ℕ → Memory
write_word m a v b = if a == b then v else m b
