-- ===== src/Pipe.antt =====
-- kern/proc/pipe.cpp: a ring of PIPESIZE bytes under a lock. `switch` is pswitch(), and the result `none`
-- is -1.
pub mod Queue
pub mod Empty
use page_fault_os_for_risc_v.Prelude.{
  ℕ, zero, suc, ◌+◌, ◌-◌, ◌*◌, ◌/◌, ◌%◌, ◌^◌, ◌≡◌, refl, Bool, true, false, not, ◌&&◌, ◌||◌, Option,
  none, some, ltb, ◌==◌, if◌then◌else◌, eq→==,
}
use page_fault_os_for_risc_v.Kernel.{Lock, Pipe, Kernel, on_reads, on_writes}
use page_fault_os_for_risc_v.Kernel.Run.{
  Cmd, Status, done, failed, out_of_fuel, pure, ◌>>=◌, ◌>>◌, modify, gets,
}
use page_fault_os_for_risc_v.Sync.Spinlock.{LockRef, free_lock, initlock, acquire, release}
use page_fault_os_for_risc_v.Mm.Layout.{u64, page_round_down}
use page_fault_os_for_risc_v.Mm.Bytes.{get_byte}
use page_fault_os_for_risc_v.Mm.PageTable.{kget_kaddr}
use page_fault_os_for_risc_v.Mm.Copy.{copyout}
use page_fault_os_for_risc_v.Proc.{set_at, get_proc, curproc, deref, wakeup}
use page_fault_os_for_risc_v.Proc.Sched.{sleep}

abbrev pub pipe_size : ℕ
pipe_size = 512

abbrev pub u32 : ℕ → ℕ
u32 n = n % 2 ^ 32

abbrev pub set_pipe : ℕ → Pipe → Kernel → Kernel
set_pipe i p k = record k { pipes = λ j. if j == i then p else k.pipes j }

abbrev pub pipe_lock : ℕ → LockRef
pipe_lock i = record {
  get = λ k. (k.pipes i).lock;
  put = λ l k. set_pipe i (record (k.pipes i) { lock = l }) k;
  get-put = λ l k. rw (eq→== i i refl) refl;
  put-cpu = λ l k. refl;
  put-hart = λ l k. refl;
  get-cpu = λ c k. refl;
}

abbrev pub get_pipe : ℕ → Cmd Kernel Pipe
get_pipe i = gets λ k. k.pipes i

abbrev pub change_pipe : ℕ → (Pipe → Pipe) → Cmd Kernel (Unit {0})
change_pipe i f = modify λ k. set_pipe i (f (k.pipes i)) k

-- The constructor, but for the two handles.
unfoldable pub make : (name_lock : Cmd Kernel (Unit {0})) → (id : ℕ) → Cmd Kernel (Unit {0})
make name_lock id = do
  change_pipe id λ p. record p { readable = true; writeable = true; nread = 0; nwrite = 0 }
  initlock (pipe_lock id) name_lock

abbrev pub is_empty : Pipe → Bool
is_empty p = p.nread == p.nwrite

abbrev pub is_full : Pipe → Bool
is_full p = p.nwrite == u32 (p.nread + pipe_size)

-- this->buf[this->nread++ % PIPESIZE]
abbrev pub next_byte : Pipe → ℕ
next_byte p = p.buf (p.nread % pipe_size)

unfoldable pub pop : Pipe → Pipe
pop p = record p { nread = u32 (p.nread + 1) }

-- this->buf[this->nwrite++ % PIPESIZE] = ch
unfoldable pub push : ℕ → Pipe → Pipe
push c p = record p { nwrite = u32 (p.nwrite + 1); buf = set_at p.buf (p.nwrite % pipe_size) c }

-- copyin() of one byte into a local variable.
unfoldable pub copyin_char : (pt va : ℕ) → Cmd Kernel (Option ℕ)
copyin_char pt va = do
  pa ← kget_kaddr pt (page_round_down va)
  if pa == 0
      then pure none
      else do c ← gets λ k. get_byte k.mem (pa + (va - page_round_down va)); pure (some c)

-- The loop of piperead() over the `n` bytes that are left, `i` being read.
unfoldable pub read_loop : (n i id : ℕ) → Option ℕ → (addr : ℕ) → Cmd Kernel ℕ
read_loop zero i id p addr = pure i
read_loop (suc n) i id p addr =
    let rest = read_loop n (i + 1) id p addr in
    do
      q ← get_pipe id
      if is_empty q then pure i else do
        change_pipe id pop
        deref p λ j. do
          c ← get_proc j
          r ← copyout c.pagetable (u64 (addr + i)) (λ _ _. next_byte q) 1
          elim r [ failed ↦ pure i | done ↦ rest ]

module _ (switch : Cmd Kernel (Unit {0})) where
  -- Waiting for bytes: false if the process was killed.
  unfoldable pub read_wait : (fuel id : ℕ) → Option ℕ → Cmd Kernel Bool
  read_wait zero id p = λ _. out_of_fuel
  read_wait (suc fuel) id p =
      let rest = read_wait fuel id p in
      do
        q ← get_pipe id
        if not (is_empty q && q.writeable)
            then pure true
            else deref p λ j. do
              c ← get_proc j
              if not (c.killed == 0)
                  then (do release (pipe_lock id); pure false)
                  else do sleep switch (on_reads id) (pipe_lock id) false; rest

  unfoldable pub piperead : (fuel id addr n : ℕ) → Cmd Kernel (Option ℕ)
  piperead fuel id addr n = do
    p ← curproc
    acquire (pipe_lock id)
    ready ← read_wait fuel id p
    if not ready then pure none else do
      i ← read_loop n 0 id p addr
      wakeup (on_writes id)
      release (pipe_lock id)
      pure (some i)

  -- Waiting for room: false if nobody reads any more, or the process was killed.
  unfoldable pub write_wait : (fuel id : ℕ) → Option ℕ → Cmd Kernel Bool
  write_wait zero id p = λ _. out_of_fuel
  write_wait (suc fuel) id p =
      let rest = write_wait fuel id p in
      let give_up = (do release (pipe_lock id); pure false) in
      do
        q ← get_pipe id
        if not (is_full q)
            then pure true
            else if not q.readable
            then give_up
            else deref p λ j. do
              c ← get_proc j
              if not (c.killed == 0) then give_up else do
                wakeup (on_reads id)
                sleep switch (on_writes id) (pipe_lock id) false
                rest

  -- The loop of pipewrite(); `none` if it gave up.
  unfoldable pub write_loop : (n i fuel id : ℕ) → Option ℕ → (addr : ℕ) → Cmd Kernel (Option ℕ)
  write_loop zero i fuel id p addr = pure (some i)
  write_loop (suc n) i fuel id p addr =
      let rest = write_loop n (i + 1) fuel id p addr in
      do
        ready ← write_wait fuel id p
        if not ready
            then pure none
            else deref p λ j. do
              c ← get_proc j
              ch ← copyin_char c.pagetable (u64 (addr + i))
              elim ch [ none ↦ pure (some i) | some b ↦ do change_pipe id (push b); rest ]

  unfoldable pub pipewrite : (fuel id addr n : ℕ) → Cmd Kernel (Option ℕ)
  pipewrite fuel id addr n = do
    p ← curproc
    acquire (pipe_lock id)
    r ← write_loop n 0 fuel id p addr
    elim r [
      | none ↦ pure none
      | some i ↦ do wakeup (on_reads id); release (pipe_lock id); pure (some i)
    ]

-- Whether the pipe is to be deleted.
unfoldable pub pipeclose : (id : ℕ) → (read_end : Bool) → Cmd Kernel Bool
pipeclose id read_end = do
  acquire (pipe_lock id)
  if read_end
      then (do change_pipe id (λ p. record p { readable = false }); wakeup (on_writes id))
      else (do change_pipe id (λ p. record p { writeable = false }); wakeup (on_reads id))
  q ← get_pipe id
  release (pipe_lock id)
  pure (not q.readable && not q.writeable)
