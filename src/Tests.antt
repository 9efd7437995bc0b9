-- ===== src/Tests.antt =====
-- Runs of the modelled code on concrete kernels and strings; here, the kernels that they start from.
pub mod Locks
pub mod Output
pub mod Calls
pub mod Keyboard
pub mod Pages
pub mod Tables
pub mod Strings
pub mod Spaces
pub mod Processes
pub mod Pipes
pub mod Buffers
pub mod Harts
pub mod Volumes
pub mod Handles
pub mod Traps
pub mod Regions
pub mod Programs
pub mod Directories
use page_fault_os_for_risc_v.Prelude.{some, none, ℕ, ◌==◌, if◌then◌else◌, true, false}
use page_fault_os_for_risc_v.Kernel.{Buf, Pipe, Kernel, Cpu, Proc, unused, nowhere}
use page_fault_os_for_risc_v.Fs.File.{no_file}
use page_fault_os_for_risc_v.Sync.Spinlock.{free_lock}

-- A hart in no critical section, with interrupts on.
abbrev pub idle : Cpu
idle = record { noff = 0; intena = false; intr = true }

-- An empty pipe with both ends open.
abbrev pub new_pipe : Pipe
new_pipe = record {
  readable = true;
  writeable = true;
  nwrite = 0;
  nread = 0;
  lock = free_lock;
  buf = λ i. 0;
}

-- A buffer that holds nothing.
abbrev pub new_buf : Buf
new_buf = record {
  valid = false;
  dev = 0;
  blockno = 0;
  last_use_tick = 0;
  sleeplock = record { locked = false; lk = free_lock; pid = 0 };
  refcnt = 0;
  bytes = λ i. 0;
}

-- An unused entry of the process table.
abbrev pub fresh_proc : Proc
fresh_proc = record {
  lock = free_lock;
  state = unused;
  parent = none;
  chan = nowhere;
  killed = 0;
  xstate = 0;
  pid = 0;
  kstack = 0x80100000;
  sz = 0;
  pagetable = 0;
  kpagetable = 0;
  mticks = 0;
  uticks = 0;
  trapframe = 0;
  context = record { ra = 0; sp = 0; saved = λ i. 0 };
  vma = λ i. 0;
  ofile = λ i. 0;
  work_dir = λ i. 0;
  name = λ i. 0;
}

abbrev pub root_table : ℕ
root_table = 0x80300000

-- No page is free; the memory is 0, and the kernel ends three pages below PHYSTOP.
abbrev pub bare : Kernel
bare = record {
  hart = 0;
  kernel_end = 0x805fd000;
  cpu = idle;
  kmem = record { lock = free_lock; freelist = 0; npages = 0 };
  mem = λ a. 0;
  kern_pagetable = root_table;
  table = λ i. fresh_proc;
  current = none;
  init_proc = none;
  ticks = 0;
  tickslock = free_lock;
  pipes = λ i. new_pipe;
  bufs = λ i. new_buf;
  buf_lock = free_lock;
  files = λ i. no_file;
  ftable_lock = free_lock;
  handles = λ i. no_file;
  handles_lock = free_lock;
  mounted = λ i. none;
  mounted_lock = free_lock;
  console = record { buf = λ i. 0; read_index = 0; write_index = 0; lock = free_lock };
  vmas = λ i. record { addr = 0; length = 0; prot = 0; flag = 0; f = 0 };
  csr = record { scause = 0; stval = 0; sepc = 0; stvec = 0; satp = 0; spp = false; spie = false };
}

-- Two pages are free, at 0x805fe000 and at 0x805fd000.
abbrev pub two_pages : Kernel
two_pages = record bare {
  kmem = record { lock = free_lock; freelist = 0x805fe000; npages = 2 };
  mem = λ a. if a == 0x805fe000 then 0x805fd000 else 0;
}

-- The hart holds some other lock.
abbrev pub busy : Kernel
busy = record two_pages { cpu = record { noff = 1; intena = true; intr = false } }

-- A path of tables to the first entry of the table at 0x80302000, which is a leaf for 0x80303000 with
-- the user bit.
abbrev pub one_leaf : Kernel
one_leaf = record bare {
  mem = λ a.
      if a == 0x80300000
      then 0x200c0401
      else if a == 0x80301000
      then 0x200c0801
      else if a == 0x80302000
      then 0x200c0c17
      else 0;
}

-- The process 1 runs and has one open file.
abbrev pub one_process : Kernel
one_process = record bare {
  current = some 1;
  table = λ i. record fresh_proc { ofile = λ j. if j == 0 then 0x8020a000 else 0 };
}
