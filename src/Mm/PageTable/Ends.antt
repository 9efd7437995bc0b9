-- ===== src/Mm/PageTable/Ends.antt =====
-- The loops of MapPages() and vmunmap(), and the rounds that the model gives to them.
use native.Mathlib.Numerals.{add-one}
use page_fault_os_for_risc_v.Prelude.{
  ℕ, zero, suc, ◌+◌, ◌*◌, ◌/◌, ◌%◌, ◌≤◌, ◌<◌, ◌≡◌, ◌≢◌, Bool, true, false, arith, none, some, ltb,
  leb, ◌==◌, if◌then◌else◌, Bool-cases, inl, inr, le→ltb,
}
use page_fault_os_for_risc_v.Kernel.{Kernel}
use page_fault_os_for_risc_v.Kernel.Run
use page_fault_os_for_risc_v.Kernel.Run.{ok, panic, out_of_fuel, done, failed, pure, >>=-ends}
use page_fault_os_for_risc_v.Mm.Layout.{
  page_size, u64, page_round_down, max_va, px, pte_to_page, pte_flags,
}
use page_fault_os_for_risc_v.Mm.Kalloc.{kalloc, kfree}
use page_fault_os_for_risc_v.Mm.PageTable.{
  new_table, descend, walk_levels, walk, map_loop, map_pages, unmap_loop, vmunmap,
}

new_table-ends : (a : ℕ) (k : Kernel) → new_table a k ≢ out_of_fuel
unfolding new_table kalloc
new_table-ends a k = ground arith

descend-ends : (a : ℕ) (alloc : Bool) (k : Kernel) → descend a alloc k ≢ out_of_fuel
unfolding descend
descend-ends a alloc k = ground (arith, new_table-ends a k)

walk_levels-ends :
    (level pt va : ℕ) (alloc : Bool) (k : Kernel) → walk_levels level pt va alloc k ≢ out_of_fuel
unfolding walk_levels
walk_levels-ends zero pt va alloc k = λ e. cc
walk_levels-ends (suc level) pt va alloc k =
    >>=-ends (descend (pt + 8 * px (suc level) va) alloc k) _ (descend-ends _ alloc k)
      (elim [ none ↦ λ s e. cc | some p ↦ λ s. walk_levels-ends level p va alloc s ])

pub walk-ends : (pt va : ℕ) (alloc : Bool) (k : Kernel) → walk pt va alloc k ≢ out_of_fuel
unfolding walk
walk-ends pt va alloc k = ground (arith, walk_levels-ends 2 pt va alloc k)

pub walk_high :
    (pt va : ℕ) (alloc : Bool) (k : Kernel)
    → max_va ≤ va
    → walk pt va alloc k ≡ panic Run.walk_bounds
unfolding walk
walk_high pt va alloc k h = let e : leb max_va va ≡ true = ground arith in rw e

map_loop-high :
    (f pt temp last pa perm : ℕ) (k : Kernel)
    → max_va ≤ temp
    → map_loop (suc f) pt temp last pa perm k ≢ out_of_fuel
unfolding map_loop
map_loop-high f pt temp last pa perm k h = rw (walk_high pt temp true k h) (λ e. cc)

-- One round, with the rest of the loop a command that ends.
map_loop-round :
    (f pt temp last pa perm : ℕ) (k : Kernel)
    → ((s : Kernel)
        → map_loop f pt (u64 (temp + page_size)) last (u64 (pa + page_size)) perm s ≢ out_of_fuel)
    → map_loop (suc f) pt temp last pa perm k ≢ out_of_fuel
unfolding map_loop
map_loop-round f pt temp last pa perm k h =
    >>=-ends (walk pt temp true k) _ (walk-ends pt temp true k) λ a s. elim (Bool-cases (a == 0)) [
      | inl z ↦ rw z (λ e. cc)
      | inr nz ↦ rw nz (elim (Bool-cases (s.mem a == 0)) [
        | inr full ↦ rw full (λ e. cc)
        | inl empty ↦
            rw empty
              (elim (Bool-cases (temp == last)) [ inl e ↦ rw e (λ e. cc) | inr n ↦ rw n (h _) ])
      ])
    ]

map_loop-ends :
    (f pt temp last pa perm : ℕ) (k : Kernel)
    → (temp < max_va → max_va ≤ temp + f * page_size)
    → map_loop (suc f) pt temp last pa perm k ≢ out_of_fuel
map_loop-ends zero pt temp last pa perm k h = map_loop-high 0 pt temp last pa perm k (grind arith)
map_loop-ends (suc f) pt temp last pa perm k h = elim (Bool-cases (ltb temp max_va)) [
  | inr ge ↦ map_loop-high (suc f) pt temp last pa perm k (ground arith)
  | inl lt ↦
      let t : temp < max_va = ground arith in
      let z = h t in
      map_loop-round (suc f) pt temp last pa perm k
        λ s. map_loop-ends f pt _ last _ perm s (λ q. omega arith)
]

-- Whatever the arguments, MapPages() ends: the 2^26 + 1 rounds of the model are enough.
pub map_pages-ends :
    (pt va pa size perm : ℕ) (k : Kernel) → map_pages pt va pa size perm k ≢ out_of_fuel
unfolding map_pages
map_pages-ends pt va pa size perm k =
    map_loop-ends (max_va / page_size) pt (page_round_down va) _ pa perm k (λ t. omega arith)

kfree-ends : (pa : ℕ) (k : Kernel) → kfree pa k ≢ out_of_fuel
unfolding kfree
kfree-ends pa k = ground arith

free-ends :
    (do_free : Bool) (pa : ℕ) (k : Kernel) → (if do_free then kfree pa else pure tt) k ≢ out_of_fuel
free-ends true pa k = kfree-ends pa k
free-ends false pa k = λ e. cc

unmap_loop-done :
    (f pt temp stop : ℕ) (do_free : Bool) (k : Kernel)
    → stop ≤ temp
    → unmap_loop (suc f) pt temp stop do_free k ≢ out_of_fuel
unfolding unmap_loop
unmap_loop-done f pt temp stop do_free k h = rw (le→ltb temp stop h) (λ e. cc)

unmap_loop-round :
    (f pt temp stop : ℕ) (do_free : Bool) (k : Kernel)
    → ((s : Kernel)
        → temp < max_va
        → unmap_loop f pt (u64 (temp + page_size)) stop do_free s ≢ out_of_fuel)
    → unmap_loop (suc f) pt temp stop do_free k ≢ out_of_fuel
unfolding unmap_loop
unmap_loop-round f pt temp stop do_free k h = elim (Bool-cases (ltb temp stop)) [
  | inr ge ↦ rw ge (λ e. cc)
  | inl lt ↦ rw lt (elim (Bool-cases (leb max_va temp)) [
    | inl hi ↦ rw (walk_high pt temp false k (ground arith)) (λ e. cc)
    | inr lo ↦ >>=-ends (walk pt temp false k) _ (walk-ends pt temp false k) λ a s.
        elim (Bool-cases (a == 0)) [
          | inl z ↦ rw z (λ e. cc)
          | inr nz ↦ rw nz (elim (Bool-cases (s.mem a == 0)) [
            | inr full ↦ rw full (λ e. cc)
            | inl empty ↦ rw empty (elim (Bool-cases (pte_flags (s.mem a) == 1)) [
              | inl leaf ↦ rw leaf (λ e. cc)
              | inr other ↦ rw other (
                  >>=-ends _ _ (free-ends do_free (pte_to_page (s.mem a)) s)
                    λ u s'. h _ (ground arith))
            ])
          ])
        ]
  ])
]

unmap_loop-ends :
    (f pt temp stop : ℕ) (do_free : Bool) (k : Kernel)
    → stop ≤ temp + f * page_size
    → unmap_loop (suc f) pt temp stop do_free k ≢ out_of_fuel
unmap_loop-ends zero pt temp stop do_free k h =
    unmap_loop-done 0 pt temp stop do_free k (omega arith)
unmap_loop-ends (suc f) pt temp stop do_free k h =
    unmap_loop-round (suc f) pt temp stop do_free k
      λ s lt. unmap_loop-ends f pt (u64 (temp + page_size)) stop do_free s (omega arith)

-- vmunmap() ends: as many rounds as pages, and one for the last test, are enough.
pub vmunmap-ends :
    (pt va npages : ℕ) (do_free : Bool) (k : Kernel) → vmunmap pt va npages do_free k ≢ out_of_fuel
unfolding vmunmap
vmunmap-ends pt va npages do_free k = elim (Bool-cases (va % page_size == 0)) [
  | inr mis ↦ rw mis (λ e. cc)
  | inl al ↦
      rw (al, add-one)
        (unmap_loop-ends npages pt va (u64 (va + npages * page_size)) do_free k (omega arith))
]
