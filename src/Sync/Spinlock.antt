-- ===== src/Sync/Spinlock.antt =====
-- kern/trap/intr.cpp and kern/sync/spinlock.cpp, as one hart runs them: a lock that another hart
-- holds makes acquire() spin. `int noff` is a number: at 0 the source's `noff--` gives -1, which
-- cannot happen in `release`, whose test comes after an acquire of the same hart.
pub mod Laws
use page_fault_os_for_risc_v.Prelude.{
  ℕ, ◌+◌, ◌-◌, Bool, true, false, ◌&&◌, Option, none, some, ltb, ◌==◌, if◌then◌else◌, ◌≡◌,
}
use page_fault_os_for_risc_v.Kernel.{Lock, Cpu, Kernel}
use page_fault_os_for_risc_v.Kernel.Run.{
  Cmd, ok, panic, spins, pure, ◌>>=◌, ◌>>◌, modify, acquire_held, release_not_held,
  pop_off_interruptible,
}
use page_fault_os_for_risc_v.Kernel.Run

-- Where a lock is kept, apart from the interrupt state of the hart.
pub record LockRef : Type 0 where
  pub get : Kernel → Lock
  pub put : Lock → Kernel → Kernel
  pub get-put : (l : Lock) (k : Kernel) → get (put l k) ≡ l
  pub put-cpu : (l : Lock) (k : Kernel) → (put l k).cpu ≡ k.cpu
  pub put-hart : (l : Lock) (k : Kernel) → (put l k).hart ≡ k.hart
  pub get-cpu : (c : Cpu) (k : Kernel) → get (record k { cpu = c }) ≡ get k

abbrev pub free_lock : Lock
free_lock = record { locked = false; cpu = none }

abbrev pub held_by : ℕ → Lock
held_by h = record { locked = true; cpu = some h }

-- `name_lock` is the strncpy() of the name to where `lock->name` points. Nothing sets that pointer, so what
-- the copy does is an argument here.
unfoldable pub initlock : LockRef → (name_lock : Cmd Kernel (Unit {0})) → Cmd Kernel (Unit {0})
initlock r name_lock = do
  modify λ k. r.put (record (r.get k) { locked = false }) k
  name_lock
  modify λ k. r.put (record (r.get k) { cpu = none }) k

unfoldable pub push_off : Cmd Kernel (Unit {0})
push_off k = ok tt (record k {
  cpu = record {
    noff = k.cpu.noff + 1;
    intena = if k.cpu.noff == 0 then k.cpu.intr else k.cpu.intena;
    intr = false;
  };
})

-- The interrupts come back on only if the depth is 1 after the decrement.
unfoldable pub pop_off : Cmd Kernel (Unit {0})
pop_off k =
    if k.cpu.intr
    then panic pop_off_interruptible
    else if ltb 1 k.cpu.noff
    then panic Run.pop_off
    else let n = k.cpu.noff - 1 in
      ok tt (record k { cpu = record k.cpu { noff = n; intr = n == 1 && k.cpu.intena } })

-- lock->locked && lock->cpu == curcpu()
abbrev pub holding : Lock → ℕ → Bool
holding l h = l.locked && elim l.cpu [ none ↦ false | some c ↦ c == h ]

-- The swap loop waits for another hart to clear `locked`.
unfoldable pub take_lock : LockRef → Cmd Kernel (Unit {0})
take_lock r k = if (r.get k).locked then spins else ok tt (r.put (held_by k.hart) k)

unfoldable pub acquire : LockRef → Cmd Kernel (Unit {0})
unfolding push_off take_lock
acquire r = do
  push_off
  (λ k. if holding (r.get k) k.hart then panic acquire_held else take_lock r k)

unfoldable pub release : LockRef → Cmd Kernel (Unit {0})
unfolding pop_off
release r k =
    if holding (r.get k) k.hart then pop_off (r.put free_lock k) else panic release_not_held
