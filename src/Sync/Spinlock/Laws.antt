-- ===== src/Sync/Spinlock/Laws.antt =====
-- What acquire() and release() do to the hart's interrupt state.
use page_fault_os_for_risc_v.Prelude.{
  ◌+◌, ◌≤◌, ◌<◌, ◌≡◌, refl, ◌∙◌, ap, true, false, arith, ◌==◌, if◌then◌else◌, lt→ltb, eq→==, none,
}
use page_fault_os_for_risc_v.Kernel.{Kernel, Cpu}
use page_fault_os_for_risc_v.Kernel.Run
use page_fault_os_for_risc_v.Kernel.Run.{Cmd, ok, panic, spins, ◌>>◌}
use page_fault_os_for_risc_v.Sync.Spinlock.{LockRef, free_lock, held_by, holding, acquire, release}

-- The hart's interrupt state after push_off().
abbrev pub pushed : Cpu → Cpu
pushed c = record {
  noff = c.noff + 1;
  intena = if c.noff == 0 then c.intr else c.intena;
  intr = false;
}

-- The interrupt state that a critical section leaves at depth 0.
abbrev pub settled : Cpu → Cpu
settled c = record { noff = 0; intena = c.intr; intr = false }

module _ (r : LockRef) (k : Kernel) where
  abbrev pub taken : Kernel
  taken = r.put (held_by k.hart) (record k { cpu = pushed k.cpu })

  -- acquire() takes a free lock, whatever the depth.
  pub acquire-ok : (r.get k).locked ≡ false → acquire r k ≡ ok tt taken
  unfolding acquire
  acquire-ok h = rw (r.get-cpu, h)

  -- acquire() waits for a lock that another hart holds.
  pub acquire-spins : (r.get k).locked ≡ true → (r.get k).cpu ≡ none → acquire r k ≡ spins
  unfolding acquire
  acquire-spins h e = rw (r.get-cpu, h, e)

  pub release_nested :
      holding (r.get k) k.hart ≡ true
      → k.cpu.intr ≡ false
      → 1 < k.cpu.noff
      → release r k ≡ panic Run.pop_off
  unfolding release
  release_nested h i d = rw (h, r.put-cpu, i, lt→ltb 1 k.cpu.noff d)

  pub release-ok :
      holding (r.get k) k.hart ≡ true
      → k.cpu.intr ≡ false
      → k.cpu.noff ≡ 1
      → release r k
        ≡ ok tt (record (r.put free_lock k) { cpu = record k.cpu { noff = 0; intr = false } })
  unfolding release
  release-ok h i d = rw (h, r.put-cpu, i, d)

  -- A lock that this hart does not hold cannot be given back.
  pub release-other : holding (r.get k) k.hart ≡ false → release r k ≡ panic Run.release_not_held
  unfolding release
  release-other h = rw h refl

module _ (r : LockRef) (k : Kernel) where
  pub holding-taken : holding (r.get (taken r k)) (taken r k).hart ≡ true
  holding-taken = rw (r.get-put, r.put-hart, eq→== k.hart k.hart refl)

  cpu-taken : (taken r k).cpu ≡ pushed k.cpu
  cpu-taken = r.put-cpu _ _

  -- Taking a lock and giving it back, with no lock held before: it works, and the lock is free.
  -- The interrupts are off afterwards even if they were on.
  pub acquire-release :
      (r.get k).locked ≡ false
      → k.cpu.noff ≡ 0
      → (acquire r >> release r) k
        ≡ ok tt (record (r.put free_lock (taken r k)) { cpu = settled k.cpu })
  acquire-release h d = rw (acquire-ok r k h) (
      release-ok r (taken r k) holding-taken (rw cpu-taken) (rw cpu-taken (omega arith))
      ∙ ap (λ c. ok tt (record (r.put free_lock (taken r k)) { cpu = c })) (rw (cpu-taken, d)))

  -- Inside another critical section the same pair stops the kernel, if what runs in between
  -- keeps the lock and the depth.
  pub acquire-release_nested :
      (m : Cmd Kernel (Unit {0})) {s : Kernel}
      → (r.get k).locked ≡ false
      → 1 ≤ k.cpu.noff
      → m (taken r k) ≡ ok tt s
      → r.get s ≡ held_by s.hart
      → s.cpu ≡ pushed k.cpu
      → (acquire r >> m >> release r) k ≡ panic Run.pop_off
  acquire-release_nested m {s} h d e l c =
      rw (acquire-ok r k h, e)
        (release_nested r s (rw (l, eq→== s.hart s.hart refl)) (rw c) (rw c (omega arith)))
