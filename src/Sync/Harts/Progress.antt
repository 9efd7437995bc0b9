-- ===== src/Sync/Harts/Progress.antt =====
-- The spin lock of kern/sync/spinlock.cpp between several harts: no two hold it, none of its panics
-- is reached, and it is handed on.
use page_fault_os_for_risc_v.Prelude.{
  eq→==, ap, ◌∙◌, zero, suc, [], ◌∷◌, length, suc, ◌+◌, List, ◌≤◌, ◌≢◌, ℕ, true, false, ◌≡◌,
  Bool-cases, inl, inr, refl, arith,
}
use page_fault_os_for_risc_v.Sync.Harts.{run, Pc, Harts, hart_step, pick, Reach}
use page_fault_os_for_risc_v.Sync.Harts.Owners.{Inv, owns}
use page_fault_os_for_risc_v.Sync.Harts.Invariant.{Reach-Inv, pick-Inv}

-- However the harts' accesses interleave, at most one hart is between the swap by which acquire()
-- took the lock and the write by which release() frees it.
pub mutual_exclusion :
    {s : Harts} → Reach s → (i j : ℕ) → owns (s.pc i) ≡ true → owns (s.pc j) ≡ true → i ≡ j
mutual_exclusion r i j a b = (Reach-Inv r).unique i j a b

-- However the harts' accesses interleave, no hart ends in the panic of acquire() or release(): the
-- two separate reads of holding() never take another hart's lock for the caller's own, nor miss it.
pub never_panicked : {s : Harts} → Reach s → (i : ℕ) → s.pc i ≢ Pc.panicked
never_panicked r i e = cc ((Reach-Inv r).running i)

-- The owner of the lock, by the accesses that it has left after the next one, which frees the lock
-- when none is left.
abbrev stage : ℕ → Pc
stage zero = Pc.unlocking
stage (suc zero) = Pc.clearing
stage (suc (suc zero)) = Pc.leaving_owner
stage (suc (suc (suc zero))) = Pc.leaving
stage (suc (suc (suc (suc zero)))) = Pc.critical
stage _ = Pc.taken

owns-stage : (p : Pc) → owns p ≡ true → (n : ℕ) × (n ≤ 5) × (p ≡ stage n)
owns-stage Pc.taken o = (5, omega arith, refl)
owns-stage Pc.critical o = (4, omega arith, refl)
owns-stage Pc.leaving o = (3, omega arith, refl)
owns-stage Pc.leaving_owner o = (2, omega arith, refl)
owns-stage Pc.clearing o = (1, omega arith, refl)
owns-stage Pc.unlocking o = (0, omega arith, refl)
owns-stage Pc.outside o = cc
owns-stage Pc.entering o = cc
owns-stage Pc.entering_owner o = cc
owns-stage Pc.spinning o = cc
owns-stage Pc.panicked o = cc

abbrev repeat : ℕ → ℕ → List ℕ → List ℕ
repeat zero j l = l
repeat (suc n) j l = j ∷ repeat n j l

module _ (s : Harts) (v : Inv s) (j : ℕ) where
  -- The owner, scheduled once, comes one access nearer to freeing the lock.
  stage-step : (n : ℕ) → suc n ≤ 5 → s.pc j ≡ stage (suc n) → (pick j s).pc j ≡ stage n
  unfolding pick hart_step
  stage-step zero b e = rw e (ground arith)
  stage-step (suc zero) b e = rw (e, v.owner j (rw e)) (ground arith)
  stage-step (suc (suc zero)) b e = rw (e, v.locked j (rw e)) (ground arith)
  stage-step (suc (suc (suc zero))) b e = rw e (ground arith)
  stage-step (suc (suc (suc (suc zero)))) b e = rw e (ground arith)
  stage-step (suc (suc (suc (suc (suc n))))) b e = absurd (omega arith)

  unlocked : s.pc j ≡ Pc.unlocking → (pick j s).lock.locked ≡ false
  unfolding pick hart_step
  unlocked e = rw e

pick_other : (s : Harts) (i j : ℕ) → i ≢ j → (pick j s).pc i ≡ s.pc i
unfolding pick
pick_other s i j d = ground arith

-- A hart that spins takes a free lock and names itself in two accesses.
taken_twice :
    (s : Harts) (i : ℕ)
    → s.pc i ≡ Pc.spinning
    → s.lock.locked ≡ false
    → (run (i ∷ i ∷ []) s).pc i ≡ Pc.critical
unfolding run pick hart_step
taken_twice s i e f = rw (e, f, eq→== i i refl) refl

handed :
    (n : ℕ) (s : Harts)
    → Inv s
    → (i j : ℕ) → n ≤ 5
    → i ≢ j
    → s.pc j ≡ stage n
    → s.pc i ≡ Pc.spinning
    → (run (repeat (suc n) j (i ∷ i ∷ [])) s).pc i ≡ Pc.critical
unfolding run
handed zero s v i j b d e w = taken_twice (pick j s) i (pick_other s i j d ∙ w) (unlocked s v j e)
handed (suc n) s v i j b d e w =
    handed n (pick j s) (pick-Inv s v j) i j (omega arith) d (stage-step s v j n b e)
      (pick_other s i j d ∙ w)

length-repeat : (n i j : ℕ) → length (repeat n j (i ∷ i ∷ [])) ≡ n + 2
length-repeat zero i j = refl
length-repeat (suc n) i j = omega (arith, length-repeat n i j)

-- From every state that the harts reach, and for every hart that spins in acquire(), there is a
-- schedule of at most eight accesses after which that hart holds the lock and is named in
-- `lock->cpu`: the lock is never lost.
pub lock_handed_on :
    {s : Harts}
    → Reach s
    → (i : ℕ) → s.pc i ≡ Pc.spinning
    → (hs : List ℕ) × (length hs ≤ 8) × ((run hs s).pc i ≡ Pc.critical)
lock_handed_on {s} r i w = elim (Bool-cases s.lock.locked) [
  | inl l ↦
      let v : Inv s = Reach-Inv r in
      let (j, o) = v.held l in
      let (n, b, e) = owns-stage (s.pc j) o in
      (
        repeat (suc n) j (i ∷ i ∷ []),
        omega (arith, length-repeat (suc n) i j),
        handed n s v i j b (λ d. cc (ap (λ (k : ℕ). s.pc k) d)) e w,
      )
  | inr f ↦ (i ∷ i ∷ [], omega arith, taken_twice s i w f)
]
