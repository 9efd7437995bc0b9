-- ===== src/Sync/Harts/Steps.antt =====
-- What one access of a hart keeps of the invariant.
use page_fault_os_for_risc_v.Prelude.{
  ap, ◌⊎◌, ◌≢◌, ℕ, true, false, some, ◌≡◌, Bool-cases, inl, inr, refl, arith,
}
use page_fault_os_for_risc_v.Sync.Harts.{Pc, Harts, hart_step}
use page_fault_os_for_risc_v.Sync.Harts.Owners.{owns, named, halted, Inv}

module _ (s : Harts) (v : Inv s) (h : ℕ) where
  pub step_unique :
      (p : Pc)
      → s.pc h ≡ p
      → (j : ℕ) → owns (hart_step h s.lock p).1 ≡ true
      → owns (s.pc j) ≡ true
      → j ≡ h
  unfolding hart_step
  step_unique Pc.outside e j a b = cc
  step_unique Pc.entering e j a b = ground arith
  step_unique Pc.entering_owner e j a b = ground arith
  step_unique Pc.spinning e j a b = ground (arith, v.locked j)
  step_unique Pc.taken e j a b = ground (arith, v.unique j h)
  step_unique Pc.critical e j a b = ground (arith, v.unique j h)
  step_unique Pc.leaving e j a b = ground (arith, v.unique j h)
  step_unique Pc.leaving_owner e j a b = ground (arith, v.unique j h)
  step_unique Pc.clearing e j a b = ground (arith, v.unique j h)
  step_unique Pc.unlocking e j a b = cc
  step_unique Pc.panicked e j a b = cc

  pub step_locked :
      (p : Pc)
      → s.pc h ≡ p
      → owns (hart_step h s.lock p).1 ≡ true
      → (hart_step h s.lock p).0.locked ≡ true
  unfolding hart_step
  step_locked Pc.outside e a = ground (arith, v.locked h)
  step_locked Pc.entering e a = ground (arith, v.locked h)
  step_locked Pc.entering_owner e a = ground (arith, v.locked h)
  step_locked Pc.spinning e a = ground (arith, v.locked h)
  step_locked Pc.taken e a = ground (arith, v.locked h)
  step_locked Pc.critical e a = ground (arith, v.locked h)
  step_locked Pc.leaving e a = ground (arith, v.locked h)
  step_locked Pc.leaving_owner e a = ground (arith, v.locked h)
  step_locked Pc.clearing e a = ground (arith, v.locked h)
  step_locked Pc.unlocking e a = ground (arith, v.locked h)
  step_locked Pc.panicked e a = ground (arith, v.locked h)

  pub step_locked_other :
      (p : Pc)
      → s.pc h ≡ p
      → (j : ℕ) → j ≢ h
      → owns (s.pc j) ≡ true
      → (hart_step h s.lock p).0.locked ≡ true
  unfolding hart_step
  step_locked_other Pc.outside e j d a = ground (arith, v.locked j, v.unique j h)
  step_locked_other Pc.entering e j d a = ground (arith, v.locked j, v.unique j h)
  step_locked_other Pc.entering_owner e j d a = ground (arith, v.locked j, v.unique j h)
  step_locked_other Pc.spinning e j d a = ground (arith, v.locked j, v.unique j h)
  step_locked_other Pc.taken e j d a = ground (arith, v.locked j, v.unique j h)
  step_locked_other Pc.critical e j d a = ground (arith, v.locked j, v.unique j h)
  step_locked_other Pc.leaving e j d a = ground (arith, v.locked j, v.unique j h)
  step_locked_other Pc.leaving_owner e j d a = ground (arith, v.locked j, v.unique j h)
  step_locked_other Pc.clearing e j d a = ground (arith, v.locked j, v.unique j h)
  step_locked_other Pc.unlocking e j d a = ground (arith, v.locked j, v.unique j h)
  step_locked_other Pc.panicked e j d a = ground (arith, v.locked j, v.unique j h)

  pub step_owner :
      (p : Pc)
      → s.pc h ≡ p
      → named (hart_step h s.lock p).1 ≡ true
      → (hart_step h s.lock p).0.cpu ≡ some h
  unfolding hart_step
  step_owner Pc.outside e a = ground (arith, v.owner h)
  step_owner Pc.entering e a = ground (arith, v.owner h)
  step_owner Pc.entering_owner e a = ground (arith, v.owner h)
  step_owner Pc.spinning e a = ground (arith, v.owner h)
  step_owner Pc.taken e a = ground (arith, v.owner h)
  step_owner Pc.critical e a = ground (arith, v.owner h)
  step_owner Pc.leaving e a = ground (arith, v.owner h)
  step_owner Pc.leaving_owner e a = ground (arith, v.owner h)
  step_owner Pc.clearing e a = ground (arith, v.owner h)
  step_owner Pc.unlocking e a = ground (arith, v.owner h)
  step_owner Pc.panicked e a = ground (arith, v.owner h)

  pub step_owner_other :
      (p : Pc)
      → s.pc h ≡ p
      → (j : ℕ) → j ≢ h
      → owns (s.pc j) ≡ true
      → s.lock.cpu ≡ some j
      → (hart_step h s.lock p).0.cpu ≡ some j
  unfolding hart_step
  step_owner_other Pc.outside e j d a b = ground (arith, v.unique j h)
  step_owner_other Pc.entering e j d a b = ground (arith, v.unique j h)
  step_owner_other Pc.entering_owner e j d a b = ground (arith, v.unique j h)
  step_owner_other Pc.spinning e j d a b = ground (arith, v.unique j h)
  step_owner_other Pc.taken e j d a b = ground (arith, v.unique j h)
  step_owner_other Pc.critical e j d a b = ground (arith, v.unique j h)
  step_owner_other Pc.leaving e j d a b = ground (arith, v.unique j h)
  step_owner_other Pc.leaving_owner e j d a b = ground (arith, v.unique j h)
  step_owner_other Pc.clearing e j d a b = ground (arith, v.unique j h)
  step_owner_other Pc.unlocking e j d a b = ground (arith, v.unique j h)
  step_owner_other Pc.panicked e j d a b = ground (arith, v.unique j h)

  pub step_owned :
      (p : Pc)
      → s.pc h ≡ p
      → (hart_step h s.lock p).0.cpu ≡ some h
      → named (hart_step h s.lock p).1 ≡ true
  unfolding hart_step
  step_owned Pc.outside e a = ground (arith, v.owned h, v.locked h)
  step_owned Pc.entering e a = ground (arith, v.owned h, v.locked h)
  step_owned Pc.entering_owner e a = ground (arith, v.owned h, v.locked h)
  step_owned Pc.spinning e a = ground (arith, v.owned h, v.locked h)
  step_owned Pc.taken e a = ground (arith, v.owned h, v.locked h)
  step_owned Pc.critical e a = ground (arith, v.owned h, v.locked h)
  step_owned Pc.leaving e a = ground (arith, v.owned h, v.locked h)
  step_owned Pc.leaving_owner e a = ground (arith, v.owned h, v.locked h)
  step_owned Pc.clearing e a = ground (arith, v.owned h, v.locked h)
  step_owned Pc.unlocking e a = ground (arith, v.owned h, v.locked h)
  step_owned Pc.panicked e a = ground (arith, v.owned h, v.locked h)

  pub step_owned_other :
      (p : Pc)
      → s.pc h ≡ p
      → (j : ℕ) → j ≢ h
      → (hart_step h s.lock p).0.cpu ≡ some j
      → s.lock.cpu ≡ some j
  unfolding hart_step
  step_owned_other Pc.outside e j d a = ground arith
  step_owned_other Pc.entering e j d a = ground arith
  step_owned_other Pc.entering_owner e j d a = ground arith
  step_owned_other Pc.spinning e j d a = ground arith
  step_owned_other Pc.taken e j d a = ground arith
  step_owned_other Pc.critical e j d a = ground arith
  step_owned_other Pc.leaving e j d a = ground arith
  step_owned_other Pc.leaving_owner e j d a = ground arith
  step_owned_other Pc.clearing e j d a = ground arith
  step_owned_other Pc.unlocking e j d a = ground arith
  step_owned_other Pc.panicked e j d a = ground arith

  pub step_running : (p : Pc) → s.pc h ≡ p → halted (hart_step h s.lock p).1 ≡ false
  unfolding hart_step
  step_running Pc.outside e = ground (arith, v.owned h, v.owner h, v.locked h, v.running h)
  step_running Pc.entering e = ground (arith, v.owned h, v.owner h, v.locked h, v.running h)
  step_running Pc.entering_owner e = ground (arith, v.owned h, v.owner h, v.locked h, v.running h)
  step_running Pc.spinning e = ground (arith, v.owned h, v.owner h, v.locked h, v.running h)
  step_running Pc.taken e = ground (arith, v.owned h, v.owner h, v.locked h, v.running h)
  step_running Pc.critical e = ground (arith, v.owned h, v.owner h, v.locked h, v.running h)
  step_running Pc.leaving e = ground (arith, v.owned h, v.owner h, v.locked h, v.running h)
  step_running Pc.leaving_owner e = ground (arith, v.owned h, v.owner h, v.locked h, v.running h)
  step_running Pc.clearing e = ground (arith, v.owned h, v.owner h, v.locked h, v.running h)
  step_running Pc.unlocking e = ground (arith, v.owned h, v.owner h, v.locked h, v.running h)
  step_running Pc.panicked e = ground (arith, v.owned h, v.owner h, v.locked h, v.running h)

  pub other_holds :
      owns (s.pc h) ≡ false → s.lock.locked ≡ true → (i : ℕ) × (i ≢ h) × (owns (s.pc i) ≡ true)
  other_holds e l = let (i, o) = v.held l in (i, λ d. cc (ap (λ (k : ℕ). owns (s.pc k)) d), o)

  pub step_held :
      (p : Pc)
      → s.pc h ≡ p
      → (hart_step h s.lock p).0.locked ≡ true
      → (owns (hart_step h s.lock p).1 ≡ true) ⊎ ((i : ℕ) × (i ≢ h) × (owns (s.pc i) ≡ true))
  unfolding hart_step
  step_held Pc.outside e a = inr (other_holds (cc) a)
  step_held Pc.entering e a = inr (other_holds (cc) a)
  step_held Pc.entering_owner e a = inr (other_holds (cc) a)
  step_held Pc.spinning e a = elim (Bool-cases s.lock.locked) [
    | inl l ↦ inr (other_holds (cc) l)
    | inr f ↦ inl (rw f)
  ]
  step_held Pc.taken e a = inl refl
  step_held Pc.critical e a = inl refl
  step_held Pc.leaving e a = inl (rw a)
  step_held Pc.leaving_owner e a = inl (ground (arith, v.owner h))
  step_held Pc.clearing e a = inl refl
  step_held Pc.unlocking e a = cc
  step_held Pc.panicked e a = inr (other_holds (cc) a)
