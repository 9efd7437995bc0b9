-- ===== src/Pipe/Empty.antt =====
-- piperead() on an empty pipe: its writers are gone, the reader was killed, or it has to wait.
use page_fault_os_for_risc_v.Prelude.{
  ℕ, zero, suc, ◌≤◌, ◌≡◌, ◌≢◌, ◌∙◌, refl, true, false, not, Option, none, some, arith, ◌==◌, ltb,
  if◌then◌else◌, eq→==, ==_iff,
}
use page_fault_os_for_risc_v.Kernel.{on_reads, Kernel, on_reads, on_writes}
use page_fault_os_for_risc_v.Kernel.Run
use page_fault_os_for_risc_v.Kernel.Run.{Cmd, ok, panic, pure, ◌>>=◌, ◌>>◌}
use page_fault_os_for_risc_v.Sync.Spinlock.{free_lock, holding, release}
use page_fault_os_for_risc_v.Sync.Spinlock.Laws.{
  settled, taken, acquire-ok, release-ok, holding-taken,
}
use page_fault_os_for_risc_v.Proc.{nproc, woken, wakeup}
use page_fault_os_for_risc_v.Proc.Wakeup.{curproc-some, wakeup_lem}
use page_fault_os_for_risc_v.Proc.Sched.Laws.{sleep_stuck}
use page_fault_os_for_risc_v.Pipe.{pipe_lock, is_empty, read_loop, read_wait, piperead}

-- An empty pipe gives no byte, however many are wanted.
read_loop-empty :
    (n id addr : ℕ) (p : Option ℕ) (k : Kernel)
    → is_empty (k.pipes id) ≡ true
    → read_loop n 0 id p addr k ≡ ok 0 k
unfolding read_loop
read_loop-empty zero id addr p k e = refl
read_loop-empty (suc n) id addr p k e = rw e refl

-- What the loop that waits for bytes does in its first round.
module _ (switch : Cmd Kernel (Unit {0})) (s : Kernel) (fuel id j : ℕ)
    (empty : is_empty (s.pipes id) ≡ true) where
  wait-closed :
      (s.pipes id).writeable ≡ false → read_wait switch (suc fuel) id (some j) s ≡ ok true s
  unfolding read_wait
  wait-closed closed = rw (empty, closed) refl

  wait-killed :
      (s.pipes id).writeable ≡ true
      → (s.table j).killed ≢ 0
      → read_wait switch (suc fuel) id (some j) s ≡ (do release (pipe_lock id); pure false) s
  unfolding read_wait
  wait-killed opened kl =
      let nz : ((s.table j).killed == 0) ≡ false = ground arith in rw (empty, opened, nz) refl

  wait-blocked :
      (s.pipes id).writeable ≡ true
      → (s.table j).killed ≡ 0
      → 1 ≤ s.cpu.noff
      → read_wait switch (suc fuel) id (some j) s ≡ panic Run.pop_off
  unfolding read_wait
  wait-blocked opened z depth =
      rw
        (
          empty,
          opened,
          (==_iff (s.table j).killed 0).1 z,
          sleep_stuck switch (on_reads id) (pipe_lock id) false s depth,
        )
        refl

module _ (switch : Cmd Kernel (Unit {0})) (k : Kernel) (id j : ℕ) (d : k.cpu.noff ≡ 0)
    (c : k.current ≡ some j) (u : (k.pipes id).lock.locked ≡ false)
    (empty : is_empty (k.pipes id) ≡ true) where
  abbrev pub inside : Kernel
  inside = taken (pipe_lock id) (record k { cpu = settled k.cpu })

  abbrev pub outside : Kernel
  outside = record ((pipe_lock id).put free_lock inside) {
    cpu = record inside.cpu { noff = 0; intr = false };
  }

  held : holding ((pipe_lock id).get inside) inside.hart ≡ true
  held = holding-taken (pipe_lock id) (record k { cpu = settled k.cpu })

  leave : release (pipe_lock id) inside ≡ ok tt outside
  leave = release-ok (pipe_lock id) inside held refl refl

  empty_inside : is_empty (inside.pipes id) ≡ true
  empty_inside = rw (eq→== id id refl) empty

  writeable_inside : (inside.pipes id).writeable ≡ (k.pipes id).writeable
  writeable_inside = rw (eq→== id id refl) refl

  enter :
      (fuel addr n : ℕ)
      → piperead switch fuel id addr n k
        ≡ (do
          ready ← read_wait switch fuel id (some j)
          if not ready then pure none else do
            i ← read_loop n 0 id (some j) addr
            wakeup (on_writes id)
            release (pipe_lock id)
            pure (some i))
            inside
  unfolding piperead
  enter fuel addr n =
      rw (curproc-some k j d c)
        (rw (acquire-ok (pipe_lock id) (record k { cpu = settled k.cpu }) u) refl)

  -- The kernel when a read of nothing is over: the writers that sleep are woken, and the lock is free.
  abbrev pub finished : Kernel
  finished = record outside {
    table = λ l. if ltb l nproc then woken (on_writes id) (k.table l) else k.table l;
  }

  leave_woken :
      (do wakeup (on_writes id); release (pipe_lock id); pure {A = Option ℕ} (some 0)) inside
      ≡ ok (some 0) finished
  leave_woken =
      let t : Kernel = record inside {
        table = λ l. if ltb l nproc then woken (on_writes id) (k.table l) else k.table l;
      } in
      rw (wakeup_lem (on_writes id) inside) (rw (release-ok (pipe_lock id) t held refl refl) refl)

  -- A read from an empty pipe that nobody can write to any more returns 0 bytes, one by a killed process
  -- returns -1, and both give the lock back; any other process stops the kernel when it goes to sleep.
  pub piperead_empty :
      (fuel addr n : ℕ)
      → let r = piperead switch (suc fuel) id addr n k in
        ((k.pipes id).writeable ≡ false → r ≡ ok (some 0) finished)
        × ((k.pipes id).writeable ≡ true → (k.table j).killed ≢ 0 → r ≡ ok none outside)
        × ((k.pipes id).writeable ≡ true → (k.table j).killed ≡ 0 → r ≡ panic Run.pop_off)
  piperead_empty fuel addr n = (
    λ closed.
        enter (suc fuel) addr n
        ∙ rw (wait-closed switch inside fuel id j empty_inside (writeable_inside ∙ closed))
            (rw (read_loop-empty n id addr (some j) inside empty_inside) leave_woken),
    λ opened kl.
        enter (suc fuel) addr n
        ∙ rw (wait-killed switch inside fuel id j empty_inside (writeable_inside ∙ opened) kl)
            (rw leave refl),
    λ opened z.
        enter (suc fuel) addr n
        ∙ rw
            (wait-blocked switch inside fuel id j empty_inside (writeable_inside ∙ opened) z
              (omega arith))
            refl,
  )
