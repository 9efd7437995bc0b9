-- ===== src/Proc.antt =====
-- kern/proc/proc.cpp: the process table, the current process and wakeup().
pub mod Wakeup
pub mod Alloc
pub mod Sched
pub mod Files
pub mod Wait
pub mod UserCopy
pub mod Exit
pub mod Fork
pub mod Regions
pub mod Exec
pub mod Arguments
pub mod First
use page_fault_os_for_risc_v.Prelude.{
  ℕ, zero, suc, ◌+◌, ◌*◌, ◌%◌, ◌^◌, ◌≡◌, refl, Bool, true, false, ◌&&◌, Option, none, some, ◌==◌,
  if◌then◌else◌, eq→==,
}
use page_fault_os_for_risc_v.Kernel.{
  Lock, ProcState, unused, sleeping, runnable, running, zombie, Chan, nowhere, on_proc, on_ticks,
  on_reads, on_writes, on_console, on_sleeplock, Proc, Kernel,
}
use page_fault_os_for_risc_v.Kernel.Run.{Cmd, pure, ◌>>=◌, ◌>>◌, modify, gets, abort, null_pointer}
use page_fault_os_for_risc_v.Sync.Spinlock.{LockRef, push_off, pop_off}

-- NPROC, NOFILE, NFILE, NOMMAPFILE and MAXPATH
abbrev pub nproc : ℕ
nproc = 50

abbrev pub nofile : ℕ
nofile = 120

abbrev pub nfile : ℕ
nfile = 100

abbrev pub nommapfile : ℕ
nommapfile = 16

abbrev pub maxpath : ℕ
maxpath = 64

-- Writing an entry of procTable, and an array at one index.
abbrev pub set_proc : ℕ → Proc → Kernel → Kernel
set_proc i p k = record k { table = λ j. if j == i then p else k.table j }

abbrev pub set_at : (ℕ → ℕ) → ℕ → ℕ → ℕ → ℕ
set_at a i v j = if j == i then v else a j

abbrev pub change_proc : ℕ → (Proc → Proc) → Cmd Kernel (Unit {0})
change_proc i f = modify λ k. set_proc i (f (k.table i)) k

abbrev pub get_proc : ℕ → Cmd Kernel Proc
get_proc i = gets λ k. k.table i

pub set_proc_self : (i : ℕ) (p : Proc) (k : Kernel) → (set_proc i p k).table i ≡ p
set_proc_self i p k = rw (eq→== i i refl) refl

abbrev pub proc_lock : ℕ → LockRef
proc_lock i = record {
  get = λ k. (k.table i).lock;
  put = λ l k. set_proc i (record (k.table i) { lock = l }) k;
  get-put = λ l k. rw (eq→== i i refl) refl;
  put-cpu = λ l k. refl;
  put-hart = λ l k. refl;
  get-cpu = λ c k. refl;
}

unfoldable pub curproc : Cmd Kernel (Option ℕ)
unfolding push_off pop_off
curproc = do push_off; p ← gets λ k. k.current; pop_off; pure p

-- What follows a use of curproc() that reads through the pointer.
abbrev pub deref : {A : Type 0} → Option ℕ → (ℕ → Cmd Kernel A) → Cmd Kernel A
deref p f = elim p [ none ↦ abort null_pointer | some i ↦ f i ]

-- Two channels are one if kind and number agree.
abbrev pub chan_kind : Chan → ℕ
chan_kind nowhere = 0
chan_kind (on_proc i) = 1
chan_kind on_ticks = 2
chan_kind (on_reads i) = 3
chan_kind (on_writes i) = 4
chan_kind on_console = 5
chan_kind (on_sleeplock i) = 6

abbrev pub chan_number : Chan → ℕ
chan_number nowhere = 0
chan_number (on_proc i) = i
chan_number on_ticks = 0
chan_number (on_reads i) = i
chan_number (on_writes i) = i
chan_number on_console = 0
chan_number (on_sleeplock i) = i

abbrev pub same_chan : Chan → Chan → Bool
same_chan a b = (chan_kind a == chan_kind b) && (chan_number a == chan_number b)

abbrev pub is_sleeping : ProcState → Bool
is_sleeping sleeping = true
is_sleeping unused = false
is_sleeping runnable = false
is_sleeping running = false
is_sleeping zombie = false

-- One round of wakeup().
abbrev pub woken : Chan → Proc → Proc
woken c p = if is_sleeping p.state && same_chan p.chan c then record p { state = runnable } else p

-- The loop over the entries from `i` on; no lock is taken.
unfoldable pub wake_from : (n i : ℕ) → Chan → Cmd Kernel (Unit {0})
wake_from zero i c = pure tt
wake_from (suc n) i c = do change_proc i (woken c); wake_from n (i + 1) c

unfoldable pub wakeup : Chan → Cmd Kernel (Unit {0})
wakeup c = wake_from nproc 0 c
