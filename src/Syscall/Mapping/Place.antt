-- ===== src/Syscall/Mapping/Place.antt =====
-- Where mmap() puts a region.
use page_fault_os_for_risc_v.Prelude.{
  ℕ, zero, suc, ◌+◌, ◌-◌, ◌*◌, ◌%◌, ◌^◌, ◌<◌, ◌≤◌, ◌≡◌, ◌≢◌, inl, inr, refl, ap, ◌∙◌, some, true,
  false, ◌==◌, arith, Bool-cases,
}
use page_fault_os_for_risc_v.Kernel.{Kernel, Vma}
use page_fault_os_for_risc_v.Mm.Layout.{page_size, max_va}
use page_fault_os_for_risc_v.Proc.{nommapfile}
use page_fault_os_for_risc_v.Proc.Regions.{region_holds, find_region}
use page_fault_os_for_risc_v.Proc.Fork.{set_region}
use page_fault_os_for_risc_v.Syscall.Mapping.{region_length, mapped_size, map_address, place}

-- The end of the highest region.
abbrev pub top : ℕ
top = max_va - 5 * page_size

-- The lengths of the regions of `n` slots from `slot` on.
abbrev pub total : (n slot : ℕ) → (ℕ → ℕ) → (ℕ → Vma) → ℕ
total zero slot vma t = 0
total (suc n) slot vma t = region_length t (vma slot) + total n (slot + 1) vma t

pub mapped_size-total :
    (n slot : ℕ) (vma : ℕ → ℕ) (t : ℕ → Vma)
    → total n slot vma t < 2 ^ 32
    → mapped_size n slot vma t ≡ total n slot vma t
unfolding mapped_size
mapped_size-total zero slot vma t lt = refl
mapped_size-total (suc n) slot vma t lt =
    let e = mapped_size-total n (slot + 1) vma t (omega arith) in omega arith

-- The regions of a process: each is live, a number of whole pages, and lies below the top and not deeper
-- than all lengths together.
pub record Stacked (vma : ℕ → ℕ) (t : ℕ → Vma) : Type 0 where
  pub live : (j a : ℕ) → vma j ≡ suc a → (t a).f ≢ 0
  pub whole : (j a : ℕ) → vma j ≡ suc a → (t a).length % page_size ≡ 0
  pub deep : (j a : ℕ) → vma j ≡ suc a → top ≤ (t a).addr + total nommapfile 0 vma t
  pub high : (j a : ℕ) → vma j ≡ suc a → (t a).addr + (t a).length ≤ top

region_length-whole :
    (v : ℕ) (t : ℕ → Vma)
    → ((a : ℕ) → v ≡ suc a → (t a).length % page_size ≡ 0)
    → region_length t v % page_size ≡ 0
region_length-whole zero t w = refl
region_length-whole (suc a) t w = w a refl

pub total-whole :
    (n slot : ℕ) (vma : ℕ → ℕ) (t : ℕ → Vma)
    → ((j a : ℕ) → vma j ≡ suc a → (t a).length % page_size ≡ 0)
    → total n slot vma t % page_size ≡ 0
total-whole zero slot vma t w = refl
total-whole (suc n) slot vma t w =
    let a = region_length-whole (vma slot) t (w slot) in
    let b = total-whole n (slot + 1) vma t w in omega arith

-- The address of a new region of whole pages.
pub map_address_lem :
    (sz length : ℕ)
    → sz % page_size ≡ 0
    → length % page_size ≡ 0
    → sz + length < 2 ^ 31
    → map_address sz length ≡ top - (sz + length)
map_address_lem sz length a b lt = ground arith

place-first :
    (n slot i v g : ℕ) (k : Kernel)
    → g < n
    → ((j : ℕ) → j < g → (k.table i).vma (slot + j) ≢ 0)
    → (k.table i).vma (slot + g) ≡ 0
    → place n slot i v k ≡ set_region i (slot + g) v k
unfolding place
place-first zero slot i v g k lt full free = absurd (omega arith)
place-first (suc n) slot i v zero k lt full free =
    let e : slot + 0 ≡ slot = omega arith in
    let z : ((k.table i).vma slot == 0) ≡ true = let f = rw e at free in ground arith in
    rw (e, z) refl
place-first (suc n) slot i v (suc g) k lt full free =
    let e : slot + 0 ≡ slot = omega arith in
    let ne : (k.table i).vma slot ≢ 0 = rw e at (full 0 (omega arith)) in
    let nz : ((k.table i).vma slot == 0) ≡ false = ground arith in
    let shift : (j : ℕ) → slot + suc j ≡ slot + 1 + j = λ j. omega arith in
    rw (nz, shift g)
      (place-first n (slot + 1) i v g k (omega arith)
        (λ j l z. full (suc j) (omega arith) (ap (k.table i).vma (shift j) ∙ z))
        (rw (shift g) at free))

-- The region goes to the first free slot.
pub place_lem :
    (i v g : ℕ) (k : Kernel)
    → g < nommapfile
    → ((j : ℕ) → j < g → (k.table i).vma j ≢ 0)
    → (k.table i).vma g ≡ 0
    → place nommapfile 0 i v k ≡ set_region i g v k
place_lem i v g k lt full free =
    let e : (j : ℕ) → 0 + j ≡ j = λ j. omega arith in
    place-first nommapfile 0 i v g k lt (λ j l. rw (e j) (full j l)) (rw (e g) free) ∙ rw (e g) refl

-- A search that passes slots which do not hold the address ends at the one that does.
pub find_region-first :
    (n slot g : ℕ) (vma : ℕ → ℕ) (t : ℕ → Vma) (x : ℕ)
    → slot ≤ g
    → g < slot + n
    → ((j : ℕ) → slot ≤ j → j < g → region_holds t (vma j) x ≡ false)
    → region_holds t (vma g) x ≡ true
    → find_region n slot vma t x ≡ some g
unfolding find_region
find_region-first zero slot g vma t x lo hi no_other here = absurd (omega arith)
find_region-first (suc n) slot g vma t x lo hi no_other here = elim (Bool-cases (slot == g)) [
  | inl e ↦ let e' : slot ≡ g = ground arith in rw (e', here) refl
  | inr ne ↦ rw (no_other slot (omega arith) (ground arith)) (
      find_region-first n (slot + 1) g vma t x (ground arith) (omega arith)
        (λ j l. no_other j (omega arith)) here)
]
