-- ===== src/Syscall/Mapping/Run.antt =====
-- mmap() from the call to the search that a load fault makes.
use page_fault_os_for_risc_v.Prelude.{
  ℕ, suc, ◌+◌, ◌-◌, ◌%◌, ◌^◌, ◌<◌, ◌≤◌, ◌≡◌, ◌≢◌, refl, ap, ◌∙◌, sym, some, false, ◌==◌, arith,
  if◌then◌else◌, eq→==, Bool-cases, inl, inr,
}
use page_fault_os_for_risc_v.Kernel.{Kernel, Vma}
use page_fault_os_for_risc_v.Kernel.Run.{ok}
use page_fault_os_for_risc_v.Mm.Layout.{page_size}
use page_fault_os_for_risc_v.Proc.{nommapfile, set_at, set_proc}
use page_fault_os_for_risc_v.Proc.Files.{alloc_vma}
use page_fault_os_for_risc_v.Proc.Files.Laws.{alloc_vma_first}
use page_fault_os_for_risc_v.Proc.Regions.{find_region}
use page_fault_os_for_risc_v.Proc.Fork.Laws.{counted, vfsdup-ok}
use page_fault_os_for_risc_v.Fs.Vfs.Handles.{set_handle}
use page_fault_os_for_risc_v.Syscall.Mapping.{map_file, map_address, mapped_size}
use page_fault_os_for_risc_v.Syscall.Mapping.Place.{
  top, total, mapped_size-total, Stacked, total-whole, map_address_lem, place_lem,
}
use page_fault_os_for_risc_v.Syscall.Mapping.Laws.{t', total-same, Stacked-more, found_at_slot}

-- The region that alloc_vma() gives is unused.
alloc_vma-unused : (t : ℕ → Vma) (a : ℕ) → alloc_vma t ≡ some a → (t a).f ≡ 0
alloc_vma-unused t a e = elim (alloc_vma_first t) [
  | inl (b, e', lt, f, rest) ↦ let same : b ≡ a = cc in ap (λ x. (t x).f) (sym same) ∙ f
  | inr (n, all) ↦ cc
]

module _ (k : Kernel) (i h a g length prot flags : ℕ) where
  abbrev vma : ℕ → ℕ
  vma = (k.table i).vma

  abbrev sz : ℕ
  sz = total nommapfile 0 vma k.vmas

  abbrev pub region : Vma
  region = record {
    addr = top - (sz + length);
    length = length;
    prot = prot;
    flag = flags;
    f = suc h;
  }

  -- The handle counted and rewound, and the new region in the array and in the slot.
  abbrev rewound : Kernel
  rewound = set_handle h (record ((counted h k).handles h) { position = 0 }) (counted h k)

  abbrev marked : Vma
  marked = record (k.vmas a) { f = suc h; length = length }

  -- Two stores to one region.
  abbrev stored : ℕ → Vma
  stored j =
      if j == a
      then record (if a == a then marked else k.vmas a) {
        addr = top - (sz + length);
        prot = prot;
        flag = flags;
      }
      else if j == a
      then marked
      else k.vmas j

  abbrev placing : (ℕ → Vma) → Kernel
  placing v =
      set_proc i (record (k.table i) { vma = set_at vma g (suc a) }) (record rewound { vmas = v })

  abbrev pub mapped : Kernel
  mapped = placing λ j. if j == a then region else k.vmas j

  twice : (j : ℕ) → stored j ≡ (if j == a then region else k.vmas j)
  twice j = elim (Bool-cases (j == a)) [ inl e ↦ rw (e, eq→== a a refl) refl | inr n ↦ rw n refl ]

  -- mmap() of an open file, whose length is a number of whole pages, into a process whose regions are stacked
  -- and have room, with a free region and a free slot: the call returns the address right
  -- below all lengths together; the regions stay stacked, so the new one meets no other; the handle has one
  -- more reference and position 0; and a load fault at any byte of the new region finds its slot.
  pub map_file_lem :
      k.cpu.noff ≡ 0
      → k.handles_lock.locked ≡ false
      → 1 ≤ (k.handles h).ref
      → alloc_vma k.vmas ≡ some a
      → g < nommapfile
      → ((j : ℕ) → j < g → vma j ≢ 0)
      → vma g ≡ 0
      → Stacked vma k.vmas
      → length % page_size ≡ 0
      → sz + length < 2 ^ 31
      → (t : Kernel) × (map_file i (suc h) length prot flags k ≡ ok (top - (sz + length)) t)
        × Stacked (t.table i).vma t.vmas
        × ((t.handles h).ref ≡ (k.handles h).ref + 1)
        × ((t.handles h).position ≡ 0)
        × ((x : ℕ)
            → top - (sz + length) ≤ x
            → x < top - (sz + length) + length
            → find_region nommapfile 0 (t.table i).vma t.vmas x ≡ some g)
  unfolding map_file
  map_file_lem d u r free in_table full empty s whole few =
      let z = alloc_vma-unused k.vmas a free in
      let wz : sz % page_size ≡ 0 = total-whole nommapfile 0 vma k.vmas s.whole in
      let m : mapped_size nommapfile 0 vma (t' vma k.vmas marked a g s z empty) ≡ sz =
        mapped_size-total nommapfile 0 vma (t' vma k.vmas marked a g s z empty)
          (rw (total-same vma k.vmas marked a g s z empty nommapfile 0) (omega (arith, few)))
        ∙ total-same vma k.vmas marked a g s z empty nommapfile 0 in
      let at : map_address sz length ≡ top - (sz + length) =
        map_address_lem sz length wz whole few in
      (
        mapped,
        rw
            (
              free,
              vfsdup-ok k h d u r,
              m,
              at,
              place_lem i (suc a) g (record rewound { vmas = stored }) in_table full empty,
            )
            (ap (λ v. ok (v a).addr (placing v)) (λ w j. twice j w) ∙ rw (eq→== a a refl) refl),
        rw (eq→== i i refl)
            (Stacked-more vma k.vmas region a g s z empty in_table (omega arith) whole few refl),
        rw (eq→== h h refl) refl,
        rw (eq→== h h refl) refl,
        λ x lo hi. rw (eq→== i i refl) (
            found_at_slot vma k.vmas region a g s z empty in_table (omega arith) whole few refl x lo
              hi),
      )
