-- ===== src/Tests/Harts.antt =====
-- The spin lock between two harts.
use page_fault_os_for_risc_v.Prelude.{length, ℕ, ◌≤◌, ◌≡◌, ◌≢◌, List, [], ◌∷◌, refl}
use page_fault_os_for_risc_v.Sync.Spinlock.{held_by}
use page_fault_os_for_risc_v.Sync.Spinlock.Laws
use page_fault_os_for_risc_v.Sync.Harts.{Pc, Harts, hart_step, pick, run, start, here}
use page_fault_os_for_risc_v.Sync.Harts.Invariant.{run-Reach}
use page_fault_os_for_risc_v.Sync.Harts.Progress.{mutual_exclusion, never_panicked, lock_handed_on}
use page_fault_os_for_risc_v.Sync.Harts.Solo.{standing, acquire_solo}
use page_fault_os_for_risc_v.Mm.Kalloc.{kmem_lock}
use page_fault_os_for_risc_v.Tests.{bare}

-- Hart 0 takes the lock, and hart 1 spins on it.
abbrev contended : Harts
contended = run (0 ∷ 0 ∷ 0 ∷ 0 ∷ 1 ∷ 1 ∷ 1 ∷ []) start

contended_states : (contended.pc 0 ≡ Pc.critical) × (contended.pc 1 ≡ Pc.spinning)
unfolding run pick hart_step
contended_states = (refl, refl)

mutual_exclusion_example : ◌≡◌ {A = ℕ} 0 0
unfolding run pick hart_step
mutual_exclusion_example =
    mutual_exclusion (run-Reach here (0 ∷ 0 ∷ 0 ∷ 0 ∷ 1 ∷ 1 ∷ 1 ∷ [])) 0 0 refl refl

never_panicked_run : contended.pc 1 ≢ Pc.panicked
never_panicked_run = never_panicked (run-Reach here (0 ∷ 0 ∷ 0 ∷ 0 ∷ 1 ∷ 1 ∷ 1 ∷ [])) 1

lock_handed_on_example : (hs : List ℕ) × (length hs ≤ 8) × ((run hs contended).pc 1 ≡ Pc.critical)
lock_handed_on_example =
    lock_handed_on (run-Reach here (0 ∷ 0 ∷ 0 ∷ 0 ∷ 1 ∷ 1 ∷ 1 ∷ [])) 1 contended_states.1

acquire_solo_run :
    (run (0 ∷ 0 ∷ 0 ∷ 0 ∷ []) (standing (kmem_lock.get bare) Pc.outside)).lock ≡ held_by 0
acquire_solo_run =
    acquire_solo kmem_lock bare (Laws.taken kmem_lock bare) (Laws.acquire-ok kmem_lock bare refl)
