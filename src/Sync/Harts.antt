-- ===== src/Sync/Harts.antt =====
-- kern/sync/spinlock.cpp with every hart at once: acquire(), release() and holding() as the single
-- reads and writes of the lock that they make, interleaved in any order. The memory is taken to be
-- sequentially consistent, which is what the calls of __sync_synchronize() are for.
pub mod Owners
mod Steps
pub mod Invariant
pub mod Progress
pub mod Solo
use page_fault_os_for_risc_v.Prelude.{
  ℕ, Bool, true, false, Option, none, some, List, [], ◌∷◌, ◌==◌, if◌then◌else◌, ◌≡◌,
}
use page_fault_os_for_risc_v.Kernel.{Lock}
use page_fault_os_for_risc_v.Sync.Spinlock.{free_lock}

-- Where a hart stands: each value is the access to the lock that it makes next.
pub data Pc : Type 0 where
  outside : Pc
  entering : Pc
  entering_owner : Pc
  spinning : Pc
  taken : Pc
  critical : Pc
  leaving : Pc
  leaving_owner : Pc
  clearing : Pc
  unlocking : Pc
  panicked : Pc

pub record Harts : Type 0 where
  pub lock : Lock
  pub pc : ℕ → Pc

abbrev pub is_owner : Option ℕ → ℕ → Bool
is_owner none h = false
is_owner (some c) h = c == h

abbrev pub test : Lock → Bool → Pc → Pc → Lock × Pc
test l b p q = (l, if b then p else q)

-- The next access of hart `h`. At `outside` the hart calls acquire(), at `critical` release();
-- `entering` and `leaving` are the two reads of holding().
unfoldable pub hart_step : ℕ → Lock → Pc → Lock × Pc
hart_step h l Pc.outside = (l, Pc.entering)
hart_step h l Pc.entering = test l l.locked Pc.entering_owner Pc.spinning
hart_step h l Pc.entering_owner = test l (is_owner l.cpu h) Pc.panicked Pc.spinning
hart_step h l Pc.spinning = (record l { locked = true }, if l.locked then Pc.spinning else Pc.taken)
hart_step h l Pc.taken = (record l { cpu = some h }, Pc.critical)
hart_step h l Pc.critical = (l, Pc.leaving)
hart_step h l Pc.leaving = test l l.locked Pc.leaving_owner Pc.panicked
hart_step h l Pc.leaving_owner = test l (is_owner l.cpu h) Pc.clearing Pc.panicked
hart_step h l Pc.clearing = (record l { cpu = none }, Pc.unlocking)
hart_step h l Pc.unlocking = (record l { locked = false }, Pc.outside)
hart_step h l Pc.panicked = (l, Pc.panicked)

abbrev pub at : (ℕ → Pc) → ℕ → Pc → ℕ → Pc
at f h p j = if j == h then p else f j

unfoldable pub pick : ℕ → Harts → Harts
pick h s = let (l, p) = hart_step h s.lock (s.pc h) in record s { lock = l; pc = at s.pc h p }

-- After initlock(), no hart has called acquire().
abbrev pub start : Harts
start = record { lock = free_lock; pc = λ _. Pc.outside }

-- A schedule names the hart that makes the next access.
unfoldable pub run : List ℕ → Harts → Harts
run [] s = s
run (h ∷ hs) s = run hs (pick h s)

pub data Reach : Harts → Type 0 where
  here : Reach start
  next : {s t : Harts} → Reach s → (h : ℕ) → t ≡ pick h s → Reach t
