-- ===== src/Mm/PageTable/Walk.antt =====
-- walk() without `alloc`, and paths of three tables.
use page_fault_os_for_risc_v.Prelude.{
  ℕ, ◌+◌, ◌*◌, ◌%◌, ◌<◌, ◌≡◌, ◌≢◌, true, false, not, arith, if◌then◌else◌,
}
use page_fault_os_for_risc_v.Kernel.{Kernel, Memory, write_word}
use page_fault_os_for_risc_v.Kernel.Run.{ok}
use page_fault_os_for_risc_v.Mm.Layout.{page_size, max_va, px, is_valid, pte_to_page}
use page_fault_os_for_risc_v.Mm.PageTable.{descend, walk_levels, walk}

-- The address of the entry that a three-level table at `pt` has for `va`, or 0.
abbrev pub entry_of : Memory → ℕ → ℕ → ℕ
entry_of m pt va =
    let e2 = m (pt + 8 * px 2 va) in
    let e1 = m (pte_to_page e2 + 8 * px 1 va) in
    if not (is_valid e2) then 0 else if not (is_valid e1) then 0 else pte_to_page e1 + 8 * px 0 va

-- Without `alloc`, walk() finds the entry below MAXVA and leaves the kernel as it was.
pub walk-entry_of :
    (pt va : ℕ) (k : Kernel) → va < max_va → walk pt va false k ≡ ok (entry_of k.mem pt va) k
unfolding walk walk_levels descend
walk-entry_of pt va k lt = ground arith

-- The tables at `t2`, `t1` and `t0` lead to the entry for `va`, and are three pages.
pub record Path3 (m : Memory) (va t2 t1 t0 : ℕ) : Type 0 where
  pub valid2 : is_valid (m (t2 + 8 * px 2 va)) ≡ true
  pub child2 : pte_to_page (m (t2 + 8 * px 2 va)) ≡ t1
  pub valid1 : is_valid (m (t1 + 8 * px 1 va)) ≡ true
  pub child1 : pte_to_page (m (t1 + 8 * px 1 va)) ≡ t0
  pub aligned2 : t2 % page_size ≡ 0
  pub aligned1 : t1 % page_size ≡ 0
  pub aligned0 : t0 % page_size ≡ 0
  pub apart21 : t2 ≢ t1
  pub apart20 : t2 ≢ t0
  pub apart10 : t1 ≢ t0

pub Path3-entry_of :
    (m : Memory) (va t2 t1 t0 : ℕ) → Path3 m va t2 t1 t0 → entry_of m t2 va ≡ t0 + 8 * px 0 va
Path3-entry_of m va t2 t1 t0 p = rw (p.child2, p.valid2, p.valid1, p.child1)

-- Writing the entry in the last table keeps the path.
pub Path3-write_word :
    (m : Memory) (va t2 t1 t0 v : ℕ)
    → Path3 m va t2 t1 t0
    → Path3 (write_word m (t0 + 8 * px 0 va) v) va t2 t1 t0
unfolding write_word
Path3-write_word m va t2 t1 t0 v p =
    let a = write_spared t2 2 p.aligned2 p.apart20 in
    let b = write_spared t1 1 p.aligned1 p.apart10 in
    record {
      valid2 = rw a p.valid2;
      child2 = rw a p.child2;
      valid1 = rw b p.valid1;
      child1 = rw b p.child1;
      aligned2 = p.aligned2;
      aligned1 = p.aligned1;
      aligned0 = p.aligned0;
      apart21 = p.apart21;
      apart20 = p.apart20;
      apart10 = p.apart10;
    }
  where
    write_spared :
        (t l : ℕ)
        → t % page_size ≡ 0
        → t ≢ t0
        → write_word m (t0 + 8 * px 0 va) v (t + 8 * px l va) ≡ m (t + 8 * px l va)
    write_spared t l al ne = let z = p.aligned0 in ground arith
