-- ===== src/Syscall/Mapping/Laws.antt =====
-- mmap(): one more region in the address space of a process.
use page_fault_os_for_risc_v.Prelude.{
  subst, ℕ, zero, suc, ◌+◌, ◌-◌, ◌%◌, ◌^◌, ◌<◌, ◌≤◌, ◌≡◌, ◌≢◌, inl, inr, refl, ap, ◌∙◌, sym, some,
  true, false, ltb, leb, ◌==◌, ◌&&◌, arith, if◌then◌else◌, eq→==, ==_iff, Bool-cases,
}
use page_fault_os_for_risc_v.Kernel.{Vma}
use page_fault_os_for_risc_v.Mm.Layout.{u64, page_size}
use page_fault_os_for_risc_v.Proc.{nommapfile, set_at}
use page_fault_os_for_risc_v.Proc.Exit.{widen}
use page_fault_os_for_risc_v.Proc.Regions.{holds, find_region}
use page_fault_os_for_risc_v.Proc.Fork.Laws.{zero_or_suc}
use page_fault_os_for_risc_v.Syscall.Mapping.{region_length}
use page_fault_os_for_risc_v.Syscall.Mapping.Place.{top, total, Stacked, find_region-first}

holds-inside :
    (v : Vma) (x : ℕ)
    → v.length < 2 ^ 31
    → v.addr + v.length < 2 ^ 64
    → v.addr ≤ x
    → x < v.addr + v.length
    → holds v x ≡ true
holds-inside v x small below lo hi =
    let w : widen v.length ≡ v.length = ground arith in
    let u : u64 (v.addr + v.length) ≡ v.addr + v.length = omega arith in rw (w, u) (ground arith)

holds-under : (v : Vma) (x : ℕ) → x < v.addr → holds v x ≡ false
holds-under v x lt = let e : leb v.addr x ≡ false = ground arith in rw e refl

-- One more region, `r`, at the free place `a` of the array and the empty slot `g`.
module _ (vma : ℕ → ℕ) (t : ℕ → Vma) (r : Vma) (a g : ℕ) (s : Stacked vma t) (free : (t a).f ≡ 0)
    (empty : vma g ≡ 0) where
  abbrev pub vma' : ℕ → ℕ
  vma' = set_at vma g (suc a)

  abbrev pub t' : ℕ → Vma
  t' j = if j == a then r else t j

  -- The place is no other slot's.
  apart : (j b : ℕ) → vma j ≡ suc b → (b == a) ≡ false
  apart j b e = elim (Bool-cases (b == a)) [
    | inl q ↦
        let q' : b ≡ a = (==_iff b a).0 q in absurd (s.live j b e (ap (λ x. (t x).f) q' ∙ free))
    | inr q ↦ q
  ]

  pub kept : (j b : ℕ) → vma j ≡ suc b → t' b ≡ t b
  kept j b e = ap (λ x. if x then r else t b) (apart j b e)

  pub placed : t' a ≡ r
  placed = ap (λ x. if x then r else t a) (eq→== a a refl)

  region_length-other : (j : ℕ) → region_length t' (vma j) ≡ region_length t (vma j)
  region_length-other j = elim (zero_or_suc (vma j)) [
    | inl z ↦ rw z refl
    | inr (b, e) ↦ rw e (ap (λ v. v.length) (kept j b e))
  ]

  -- Before the slot is filled the lengths are the same.
  pub total-same : (n slot : ℕ) → total n slot vma t' ≡ total n slot vma t
  total-same zero slot = refl
  total-same (suc n) slot = rw (region_length-other slot, total-same n (slot + 1)) refl

  total-more :
      (n slot : ℕ)
      → total n slot vma' t'
        ≡ total n slot vma t + (if leb slot g && ltb g (slot + n) then r.length else 0)
  total-more zero slot = ground arith
  total-more (suc n) slot = elim (Bool-cases (slot == g)) [
    | inl e ↦
        let e' : slot ≡ g = ground arith in
        let z : region_length t (vma slot) ≡ 0 = rw (e', empty) refl in
        let l : region_length t' (suc a) ≡ r.length = ap (λ v. v.length) placed in
        let m = total-more n (slot + 1) in rw e (ground (arith, l, z, m))
    | inr ne ↦
        let m = total-more n (slot + 1) in rw (ne, region_length-other slot) (ground (arith, m))
  ]

  module _ (in_table : g < nommapfile) (live : r.f ≢ 0) (whole : r.length % page_size ≡ 0)
      (few : total nommapfile 0 vma t + r.length < 2 ^ 31)
      (addr : r.addr ≡ top - (total nommapfile 0 vma t + r.length)) where
    all_more : total nommapfile 0 vma' t' ≡ total nommapfile 0 vma t + r.length
    all_more = let m = total-more nommapfile 0 in ground (arith, m)

    at_slot :
        (P : Vma → Type 0)
        → P r
        → ((j b : ℕ) → vma j ≡ suc b → P (t b))
        → (j b : ℕ) → vma' j ≡ suc b
        → P (t' b)
    at_slot P new old j b e = elim (Bool-cases (j == g)) [
      | inl q ↦
          let q' : a ≡ b = let e1 = rw q at e in omega (arith, e1) in
          subst (λ x. P (t' x)) q' (subst P (sym placed) new)
      | inr n ↦ let e1 = rw n at e in subst P (sym (kept j b e1)) (old j b e1)
    ]

    pub Stacked-more : Stacked vma' t'
    Stacked-more = record {
      live = at_slot (λ v. v.f ≢ 0) live s.live;
      whole = at_slot (λ v. v.length % page_size ≡ 0) whole s.whole;
      deep =
          at_slot (λ v. top ≤ v.addr + total nommapfile 0 vma' t') (omega (arith, all_more, addr))
            (λ j b e. let m = s.deep j b e in omega (arith, all_more, m));
      high = at_slot (λ v. v.addr + v.length ≤ top) (omega (arith, addr)) s.high;
    }

    above : (j b x : ℕ) → vma j ≡ suc b → x < r.addr + r.length → x < (t b).addr
    above j b x e lt = let m = s.deep j b e in omega (arith, m, addr)

    pub found_at_slot :
        (x : ℕ) → r.addr ≤ x → x < r.addr + r.length → find_region nommapfile 0 vma' t' x ≡ some g
    found_at_slot x lo hi =
        let mine : holds r x ≡ true = holds-inside r x (omega arith) (omega (arith, addr)) lo hi in
        find_region-first nommapfile 0 g vma' t' x (omega arith) in_table
          (λ j l m. elim (zero_or_suc (vma j)) [
            | inl z ↦ let n : (j == g) ≡ false = ground arith in rw (n, z) refl
            | inr (b, e) ↦
                let n : (j == g) ≡ false = ground arith in
                let h = holds-under (t b) x (above j b x e hi) in
                rw (n, e) (ap (λ v. holds v x) (kept j b e) ∙ h)
          ])
          (rw (eq→== g g refl) (ap (λ v. holds v x) placed ∙ mine))
