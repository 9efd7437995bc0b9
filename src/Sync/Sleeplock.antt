-- ===== src/Sync/Sleeplock.antt =====
-- kern/sync/sleeplock.cpp. `switch` is pswitch().
use page_fault_os_for_risc_v.Prelude.{
  inr, inl, Bool-cases, ℕ, zero, suc, Bool, true, false, refl, ◌≡◌, ◌==◌, if◌then◌else◌, arith, ◌≤◌,
}
use page_fault_os_for_risc_v.Kernel.{Kernel, Chan}
use page_fault_os_for_risc_v.Kernel.Run
use page_fault_os_for_risc_v.Kernel.Run.{Cmd, panic, out_of_fuel, pure, ◌>>=◌, ◌>>◌, modify, gets}
use page_fault_os_for_risc_v.Sync.Spinlock.{LockRef, initlock, acquire, release}
use page_fault_os_for_risc_v.Sync.Spinlock.Laws.{taken, acquire-ok}
use page_fault_os_for_risc_v.Proc.{get_proc, curproc, deref, wakeup}
use page_fault_os_for_risc_v.Proc.Wakeup.{curproc_nested}
use page_fault_os_for_risc_v.Proc.Sched.{sleep}
use page_fault_os_for_risc_v.Proc.Sched.Laws.{sleep_stuck}

-- Where a sleep lock is kept: its spin lock, its two fields, and the channel of those that wait.
pub record SleepRef : Type 0 where
  pub lk : LockRef
  pub locked : Kernel → Bool
  pub pid : Kernel → ℕ
  pub set : Bool → ℕ → Kernel → Kernel
  pub chan : Chan

-- The sleep lock has a name of its own, which goes through a pointer that nothing sets either.
unfoldable pub initsleeplock :
    SleepRef → (name_lock name_sleeplock : Cmd Kernel (Unit {0})) → Cmd Kernel (Unit {0})
initsleeplock s name_lock name_sleeplock = do
  initlock s.lk name_lock
  name_sleeplock
  modify (s.set false 0)

module _ (switch : Cmd Kernel (Unit {0})) where
  unfoldable pub wait_unlocked : (fuel : ℕ) → SleepRef → Cmd Kernel (Unit {0})
  wait_unlocked zero s = λ _. out_of_fuel
  wait_unlocked (suc fuel) s =
      let rest = wait_unlocked fuel s in
      do l ← gets s.locked; if l then (do sleep switch s.chan s.lk false; rest) else pure tt

  unfoldable pub acquiresleep : (fuel : ℕ) → SleepRef → Cmd Kernel (Unit {0})
  acquiresleep fuel s = do
    acquire s.lk
    wait_unlocked fuel s
    modify (λ k. s.set true (s.pid k) k)
    p ← curproc
    deref p λ i. do c ← get_proc i; modify (λ k. s.set true c.pid k); release s.lk

unfoldable pub releasesleep : SleepRef → Cmd Kernel (Unit {0})
releasesleep s = do acquire s.lk; modify (s.set false 0); wakeup s.chan; release s.lk

unfoldable pub holdingsleep : SleepRef → Cmd Kernel Bool
holdingsleep s = do
  acquire s.lk
  l ← gets s.locked
  if l
      then (do
        p ← curproc
        deref p λ i. do c ← get_proc i; pid ← gets s.pid; release s.lk; pure (pid == c.pid))
      else (do release s.lk; pure false)

-- acquiresleep() on a free spin lock stops the kernel, in sleep() if the sleep lock is taken and in
-- curproc() if it is not; setting the lock's fields must not change the hart's depth.
pub acquiresleep_stuck :
    (switch : Cmd Kernel (Unit {0})) (s : SleepRef) (fuel : ℕ) (k : Kernel)
    → (s.lk.get k).locked ≡ false
    → ((l : Bool) (n : ℕ) (t : Kernel) → (s.set l n t).cpu ≡ t.cpu)
    → acquiresleep switch (suc fuel) s k ≡ panic Run.pop_off
unfolding acquiresleep wait_unlocked
acquiresleep_stuck switch s fuel k u same =
    let t : Kernel = taken s.lk k in
    let depth : 1 ≤ t.cpu.noff = rw (s.lk.put-cpu _ _) (omega arith) in
    let depth' : 1 ≤ (s.set true (s.pid t) t).cpu.noff = rw (same true (s.pid t) t) depth in
    rw (acquire-ok s.lk k u) (elim (Bool-cases (s.locked t)) [
      | inl l ↦ rw (l, sleep_stuck switch s.chan s.lk false t depth) refl
      | inr n ↦ rw n (rw (curproc_nested (s.set true (s.pid t) t) depth') refl)
    ])
