-- ===== src/Sync/Harts/Owners.antt =====
-- Who holds the spin lock of kern/sync/spinlock.cpp: the invariant of the harts' states.
use page_fault_os_for_risc_v.Prelude.{ℕ, Bool, true, false, some, ◌≡◌}
use page_fault_os_for_risc_v.Sync.Harts.{Pc, Harts}

-- Between the swap that found the lock free and the write that frees it.
abbrev pub owns : Pc → Bool
owns Pc.taken = true
owns Pc.critical = true
owns Pc.leaving = true
owns Pc.leaving_owner = true
owns Pc.clearing = true
owns Pc.unlocking = true
owns _ = false

-- While `lock->cpu` is the hart's.
abbrev pub named : Pc → Bool
named Pc.critical = true
named Pc.leaving = true
named Pc.leaving_owner = true
named Pc.clearing = true
named _ = false

abbrev pub halted : Pc → Bool
halted Pc.panicked = true
halted _ = false

pub record Inv (s : Harts) : Type 0 where
  pub unique : (i j : ℕ) → owns (s.pc i) ≡ true → owns (s.pc j) ≡ true → i ≡ j
  pub locked : (i : ℕ) → owns (s.pc i) ≡ true → s.lock.locked ≡ true
  pub owner : (i : ℕ) → named (s.pc i) ≡ true → s.lock.cpu ≡ some i
  pub owned : (i : ℕ) → s.lock.cpu ≡ some i → named (s.pc i) ≡ true
  pub held : s.lock.locked ≡ true → (i : ℕ) × (owns (s.pc i) ≡ true)
  pub running : (i : ℕ) → halted (s.pc i) ≡ false

-- What the step of hart `h`, which stands at `p`, does to the facts about it and about another.
