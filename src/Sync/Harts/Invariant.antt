-- ===== src/Sync/Harts/Invariant.antt =====
-- The invariant holds in every state that the harts reach.
use page_fault_os_for_risc_v.Prelude.{List, [], ◌∷◌, ◌≢◌, ℕ, true, ◌≡◌, inl, inr, refl, arith}
use page_fault_os_for_risc_v.Sync.Harts.{run, Pc, Harts, hart_step, pick, at, Reach, here, next}
use page_fault_os_for_risc_v.Sync.Harts.Owners.{owns, Inv}
use page_fault_os_for_risc_v.Sync.Harts.Steps.{
  step_unique, step_locked, step_locked_other, step_owner, step_owner_other, step_owned,
  step_owned_other, step_running, step_held,
}

pub at_self : (f : ℕ → Pc) (h : ℕ) (p : Pc) → at f h p h ≡ p
at_self f h p = ground arith

pub at_other : (f : ℕ → Pc) (h : ℕ) (p : Pc) (j : ℕ) → j ≢ h → at f h p j ≡ f j
at_other f h p j d = ground arith

module _ (s : Harts) (v : Inv s) (h : ℕ) where
  pick_held : (pick h s).lock.locked ≡ true → (i : ℕ) × (owns ((pick h s).pc i) ≡ true)
  unfolding pick
  pick_held a = elim (step_held s v h (s.pc h) refl a) [
    | inl o ↦ (h, rw (at_self s.pc h (hart_step h s.lock (s.pc h)).1) o)
    | inr (i, d, o) ↦ (i, rw (at_other s.pc h (hart_step h s.lock (s.pc h)).1 i d) o)
  ]

  pick_unique : (i j : ℕ) → owns ((pick h s).pc i) ≡ true → owns ((pick h s).pc j) ≡ true → i ≡ j
  unfolding pick
  pick_unique i j a b =
      ground
        (arith, step_unique s v h (s.pc h) refl i, step_unique s v h (s.pc h) refl j, v.unique i j)

  -- One access of one hart keeps the invariant.
  pub pick-Inv : Inv (pick h s)
  unfolding pick
  pick-Inv = record {
    unique = pick_unique;
    locked = λ i a.
        ground (arith, step_locked s v h (s.pc h) refl, step_locked_other s v h (s.pc h) refl i);
    owner = λ i a.
        ground (
          arith,
          step_owner s v h (s.pc h) refl,
          step_owner_other s v h (s.pc h) refl i,
          v.owner i,
        );
    owned = λ i a.
        ground (
          arith,
          step_owned s v h (s.pc h) refl,
          step_owned_other s v h (s.pc h) refl i,
          v.owned i,
        );
    held = pick_held;
    running = λ i. ground (arith, step_running s v h (s.pc h) refl, v.running i);
  }

pub Reach-Inv : {s : Harts} → Reach s → Inv s
Reach-Inv here = record {
  unique = λ i j a b. cc;
  locked = λ i a. cc;
  owner = λ i a. cc;
  owned = λ i a. cc;
  held = λ a. cc;
  running = λ i. refl;
}
Reach-Inv (next {s} r h e) = rw e (pick-Inv s (Reach-Inv r) h)

-- A schedule leads from a reachable state to another.
pub run-Reach : {s : Harts} → Reach s → (hs : List ℕ) → Reach (run hs s)
unfolding run
run-Reach {s = s} r [] = r
run-Reach {s = s} r (h ∷ hs) = run-Reach {s = pick h s} (next r h refl) hs
