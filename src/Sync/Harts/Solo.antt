-- ===== src/Sync/Harts/Solo.antt =====
-- A hart that runs kern/sync/spinlock.cpp with no other hart in between does what the model of one
-- hart says.
use page_fault_os_for_risc_v.Prelude.{
  ◌&&◌, sym, ◌-◌, ◌∙◌, ℕ, [], ◌∷◌, ◌==◌, Bool-cases, inl, inr, refl, arith, true, false, ◌≡◌, eq→==,
}
use page_fault_os_for_risc_v.Kernel.{Lock, Kernel}
use page_fault_os_for_risc_v.Kernel.Run.{ok}
use page_fault_os_for_risc_v.Sync.Spinlock.{
  LockRef, acquire, release, holding, held_by, free_lock, pop_off,
}
use page_fault_os_for_risc_v.Sync.Spinlock.Laws.{pushed, taken, acquire-ok}
use page_fault_os_for_risc_v.Sync.Harts.{Pc, Harts, hart_step, pick, run}

abbrev pub standing : Lock → Pc → Harts
standing l p = record { lock = l; pc = λ _. p }

four-steps :
    (h : ℕ) (l : Lock)
    → l.locked ≡ false
    → (run (h ∷ h ∷ h ∷ h ∷ []) (standing l Pc.outside)).lock ≡ held_by h
unfolding run pick hart_step
four-steps h l f = rw (f, eq→== h h refl) refl

five-steps :
    (h : ℕ) (l : Lock)
    → holding l h ≡ true
    → (run (h ∷ h ∷ h ∷ h ∷ h ∷ []) (standing l Pc.critical)).lock ≡ free_lock
unfolding run pick hart_step
five-steps h l f = ground arith

acquire-free : (r : LockRef) (k k' : Kernel) → acquire r k ≡ ok tt k' → (r.get k).locked ≡ false
unfolding acquire
acquire-free r k k' e = elim (Bool-cases (r.get k).locked) [
  | inl l ↦ ground (arith, r.get-cpu (pushed k.cpu) k, e)
  | inr f ↦ f
]

-- Where acquire() returns in the model of one hart, four accesses of that hart in a row, the read
-- of holding(), the swap and the write of `lock->cpu` among them, leave the same lock.
pub acquire_solo :
    (r : LockRef) (k k' : Kernel)
    → acquire r k ≡ ok tt k'
    → (run (k.hart ∷ k.hart ∷ k.hart ∷ k.hart ∷ []) (standing (r.get k) Pc.outside)).lock ≡ r.get k'
acquire_solo r k k' e =
    let f : (r.get k).locked ≡ false = acquire-free r k k' e in
    let t : k' ≡ taken r k = cc (acquire-ok r k f) in
    rw (t, r.get-put) (four-steps k.hart (r.get k) f)

pop_off-lock : (r : LockRef) (k k' : Kernel) → pop_off k ≡ ok tt k' → r.get k' ≡ r.get k
unfolding pop_off
pop_off-lock r k k' e =
    let n = k.cpu.noff - 1 in
    ground (arith, r.get-cpu (record k.cpu { noff = n; intr = n == 1 && k.cpu.intena }) k)

release-free :
    (r : LockRef) (k k' : Kernel)
    → release r k ≡ ok tt k'
    → (holding (r.get k) k.hart ≡ true) × (r.get k' ≡ free_lock)
unfolding release
release-free r k k' e = elim (Bool-cases (holding (r.get k) k.hart)) [
  | inl l ↦ (l, pop_off-lock r (r.put free_lock k) k' (rw l at e) ∙ r.get-put free_lock k)
  | inr f ↦ absurd (cc (rw f at e))
]

-- Where release() returns in the model of one hart, five accesses of that hart in a row leave the
-- same lock.
pub release_solo :
    (r : LockRef) (k k' : Kernel)
    → release r k ≡ ok tt k'
    → (run (k.hart ∷ k.hart ∷ k.hart ∷ k.hart ∷ k.hart ∷ []) (standing (r.get k) Pc.critical)).lock
      ≡ r.get k'
release_solo r k k' e = let (h, f) = release-free r k k' e in five-steps k.hart (r.get k) h ∙ sym f
