-- ===== src/Mm/PageTable/Map.antt =====
-- MapPages(): what walkaddr() finds after it, and pages that are mapped already.
use page_fault_os_for_risc_v.Prelude.{
  ℕ, suc, ◌+◌, ◌-◌, ◌*◌, ◌/◌, ◌%◌, ◌^◌, ◌<◌, ◌≡◌, ◌≢◌, ◌⊎◌, refl, true, false, List, [], arith, leb,
  ◌==◌, if◌then◌else◌, Bool-cases, inl, inr, eq→==,
}
use page_fault_os_for_risc_v.Kernel.{Kernel, write_word}
use page_fault_os_for_risc_v.Kernel.Run
use page_fault_os_for_risc_v.Kernel.Run.{ok, panic, out_of_fuel, done, failed, >>=-ends}
use page_fault_os_for_risc_v.Mm.Layout.{
  page_size, u64, page_round_down, max_va, px, is_valid, is_user, pte_to_page, leaf_pte,
}
use page_fault_os_for_risc_v.Mm.Kalloc.Chain.{◌∉◌}
use page_fault_os_for_risc_v.Mm.Kalloc.Laws.{IsFree}
use page_fault_os_for_risc_v.Mm.PageTable.{walk, walkaddr, map_loop, map_pages}
use page_fault_os_for_risc_v.Mm.PageTable.Walk.{
  Path3, Path3-entry_of, Path3-write_word, walk-entry_of,
}
use page_fault_os_for_risc_v.Mm.PageTable.Alloc.{Tables, Unmapped, Spare, walk-Built}

-- The kernel after the entry at `a` got a leaf for the page `pa`.
abbrev pub mapped : ℕ → ℕ → ℕ → Kernel → Kernel
mapped a pa perm k = record k { mem = write_word k.mem a (leaf_pte pa perm) }

map_loop-last :
    (f pt va pa perm a : ℕ) (k k1 : Kernel)
    → walk pt va true k ≡ ok a k1
    → 0 < a
    → k1.mem a ≡ 0
    → map_loop (suc f) pt va va pa perm k ≡ ok done (mapped a pa perm k1)
unfolding map_loop
map_loop-last f pt va pa perm a k k1 e pos z =
    let ne : (a == 0) ≡ false = ground arith in rw (e, ne, z, eq→== va va refl)

map_loop-remap :
    (f pt va last pa perm a : ℕ) (k k1 : Kernel)
    → walk pt va true k ≡ ok a k1
    → 0 < a
    → k1.mem a ≢ 0
    → map_loop (suc f) pt va last pa perm k ≡ panic Run.remap
unfolding map_loop
map_loop-remap f pt va last pa perm a k k1 e pos nz =
    let ne : (a == 0) ≡ false = ground arith in
    let ne' : (k1.mem a == 0) ≡ false = ground arith in rw (e, ne, ne')

map_loop-failed :
    (f pt va last pa perm : ℕ) (k k1 : Kernel)
    → walk pt va true k ≡ ok 0 k1
    → map_loop (suc f) pt va last pa perm k ≡ ok failed k1
unfolding map_loop
map_loop-failed f pt va last pa perm k k1 e = rw e

-- A leaf is valid, has the user bit of `perm`, and leads to its page.
leaf_valid : (pa perm : ℕ) → is_valid (leaf_pte pa perm) ≡ true
leaf_valid pa perm = ground arith

leaf_user : (pa perm : ℕ) → is_user (leaf_pte pa perm) ≡ is_user perm
leaf_user pa perm = let e : leaf_pte pa perm / 16 % 2 ≡ perm / 16 % 2 = omega arith in rw e

leaf_page :
    (pa perm : ℕ)
    → pa % page_size ≡ 0
    → pa < 2 ^ 56
    → perm < 1024
    → pte_to_page (leaf_pte pa perm) ≡ pa
leaf_page pa perm al big small = omega arith

walkaddr-mapped :
    (k : Kernel) (pt va t1 t0 pa perm : ℕ)
    → va < max_va
    → 0 < t0
    → pa % page_size ≡ 0
    → pa < 2 ^ 56
    → perm < 1024
    → Path3 k.mem va pt t1 t0
    → let k' = mapped (t0 + 8 * px 0 va) pa perm k in
      walkaddr pt va k' ≡ ok (if is_user perm then pa else 0) k'
unfolding walkaddr write_word
walkaddr-mapped k pt va t1 t0 pa perm lt pos al big small path =
    let a : ℕ = t0 + 8 * px 0 va in
    let k' : Kernel = mapped a pa perm k in
    let path' = Path3-write_word k.mem va pt t1 t0 (leaf_pte pa perm) path in
    let ne : (a == 0) ≡ false = ground arith in
    let hi : leb max_va va ≡ false = ground arith in
    rw (hi, walk-entry_of pt va k' lt, Path3-entry_of k'.mem va pt t1 t0 path', ne)
      (rw (eq→== a a refl, leaf_valid pa perm, leaf_user pa perm, leaf_page pa perm al big small)
        (elim (Bool-cases (is_user perm)) [ inl u ↦ rw u | inr n ↦ rw n ]))

-- The call of MapPages() for one page runs one round.
map_pages-page :
    (k : Kernel) (pt va pa perm : ℕ)
    → va < max_va
    → va % page_size ≡ 0
    → map_pages pt va pa page_size perm k ≡ map_loop (suc (max_va / page_size)) pt va va pa perm k
unfolding map_pages
map_pages-page k pt va pa perm lt al =
    let e : page_round_down va ≡ va = omega arith in
    let e' : page_round_down (u64 (va + page_size + 2 ^ 64 - 1)) ≡ va = omega arith in rw (e', e)

-- MapPages() of one page at an unmapped address: it fails only when the free list is empty, and otherwise
-- walkaddr() then gives the page, if user mode may access it, or 0, and pages that are neither
-- free nor tables of the path keep their contents.
pub map_pages-kept :
    (k : Kernel) (ps : List ℕ) (pt va pa perm : ℕ)
    → va < max_va
    → va % page_size ≡ 0
    → pa % page_size ≡ 0
    → pa < 2 ^ 56
    → perm < 1024
    → IsFree k ps
    → Tables k ps pt va
    → Unmapped k pt va
    → ((k' : Kernel) × (map_pages pt va pa page_size perm k ≡ ok failed k') × IsFree k' [])
      ⊎ ((k' : Kernel) × (map_pages pt va pa page_size perm k ≡ ok done k')
          × (walkaddr pt va k' ≡ ok (if is_user perm then pa else 0) k')
          × ((q b : ℕ) → Spare k ps pt va q → pt ≢ q → page_round_down b ≡ q → k'.mem b ≡ k.mem b))
unfolding write_word
map_pages-kept k ps pt va pa perm lt al pal big small f tabs un =
    rw (map_pages-page k pt va pa perm lt al) (elim (walk-Built k ps pt va lt f tabs) [
      | inl (k1, e, free) ↦ inl (k1, map_loop-failed _ pt va va pa perm k k1 e, free)
      | inr (k1, ps1, t1, t0, e, b) ↦
          let (pos, z) = b.empty un in
          inr (
            mapped (t0 + 8 * px 0 va) pa perm k1,
            map_loop-last _ pt va pa perm _ k k1 e (omega arith) z,
            walkaddr-mapped k1 pt va t1 t0 pa perm lt pos pal big small b.path,
            λ q c s ne h.
                let (ne1, ne0) = b.elsewhere q s in
                let root = tabs.root in
                let (al1, al0) = b.aligned in
                let away : (t0 + 8 * px 0 va == c) ≡ false = ground arith in
                let used : page_round_down c ∉ ps = rw h s.used in
                rw away (b.spared c used (omega arith) (omega arith)),
          )
    ])

-- Outside every critical section, with the allocator's lock free and its list well formed: MapPages() of
-- one page at an unmapped address below MAXVA, whose tables are distinct and not free, returns: it
-- fails only when the free list is empty, and otherwise walkaddr() then gives the page, if user mode
-- may access it, or 0.
pub map_pages-walkaddr :
    (k : Kernel) (ps : List ℕ) (pt va pa perm : ℕ)
    → va < max_va
    → va % page_size ≡ 0
    → pa % page_size ≡ 0
    → pa < 2 ^ 56
    → perm < 1024
    → IsFree k ps
    → Tables k ps pt va
    → Unmapped k pt va
    → ((k' : Kernel) × (map_pages pt va pa page_size perm k ≡ ok failed k') × IsFree k' [])
      ⊎ ((k' : Kernel) × (map_pages pt va pa page_size perm k ≡ ok done k')
          × (walkaddr pt va k' ≡ ok (if is_user perm then pa else 0) k'))
map_pages-walkaddr k ps pt va pa perm lt al pal big small f tabs un =
    elim (map_pages-kept k ps pt va pa perm lt al pal big small f tabs un) [
      | inl full ↦ inl full
      | inr (k', e, w, _) ↦ inr (k', e, w)
    ]

-- MapPages() stops the kernel at the first page if that has an entry other than 0, valid or not.
pub map_pages-remap :
    (k k1 : Kernel) (pt va pa size perm a : ℕ)
    → walk pt (page_round_down va) true k ≡ ok a k1
    → 0 < a
    → k1.mem a ≢ 0
    → map_pages pt va pa size perm k ≡ panic Run.remap
unfolding map_pages
map_pages-remap k k1 pt va pa size perm a e pos nz =
    map_loop-remap (max_va / page_size) pt (page_round_down va) _ pa perm a k k1 e pos nz
