-- ===== src/Mm/PageTable/Alloc.antt =====
-- walk() with `alloc`: the tables that it adds.
use page_fault_os_for_risc_v.Prelude.{
  ℕ, ◌+◌, ◌*◌, ◌%◌, ◌<◌, ◌≡◌, ◌≢◌, ◌⊎◌, ◌∙◌, sym, ap, true, false, List, [], arith, none, some, leb,
  inl, inr,
}
use page_fault_os_for_risc_v.Kernel.{Kernel}
use page_fault_os_for_risc_v.Kernel.Run.{ok}
use page_fault_os_for_risc_v.Mm.Layout.{
  page_size, page_round_down, max_va, px, is_valid, pte_to_page,
}
use page_fault_os_for_risc_v.Mm.Kalloc.Chain.{has, ◌∉◌}
use page_fault_os_for_risc_v.Mm.Kalloc.Laws.{IsFree, kalloc-empty}
use page_fault_os_for_risc_v.Mm.PageTable.{descend, walk_levels, walk}
use page_fault_os_for_risc_v.Mm.PageTable.Walk.{Path3}
use page_fault_os_for_risc_v.Mm.PageTable.Step.{InPage, Below, Full, Steps, descend-Below}

-- The path from `pt` to the entry for `va`, as far as it exists, runs through distinct tables that are
-- not free.
pub record Tables (k : Kernel) (ps : List ℕ) (pt va : ℕ) : Type 0 where
  pub root : pt % page_size ≡ 0
  pub root_used : pt ∉ ps
  pub middle :
      is_valid (k.mem (pt + 8 * px 2 va)) ≡ true
      → (pte_to_page (k.mem (pt + 8 * px 2 va)) ∉ ps)
        × (pte_to_page (k.mem (pt + 8 * px 2 va)) ≢ pt)
  pub leaf :
      is_valid (k.mem (pt + 8 * px 2 va)) ≡ true
      → is_valid (k.mem (pte_to_page (k.mem (pt + 8 * px 2 va)) + 8 * px 1 va)) ≡ true
      → let t1 = pte_to_page (k.mem (pt + 8 * px 2 va)) in
        let t0 = pte_to_page (k.mem (t1 + 8 * px 1 va)) in (t0 ∉ ps) × (t0 ≢ pt) × (t0 ≢ t1)

-- Where the path exists in full, its last table is not at address 0 and its entry is 0.
pub record Unmapped (k : Kernel) (pt va : ℕ) : Type 0 where
  pub empty :
      is_valid (k.mem (pt + 8 * px 2 va)) ≡ true
      → is_valid (k.mem (pte_to_page (k.mem (pt + 8 * px 2 va)) + 8 * px 1 va)) ≡ true
      → let t1 = pte_to_page (k.mem (pt + 8 * px 2 va)) in
        let t0 = pte_to_page (k.mem (t1 + 8 * px 1 va)) in (0 < t0) × (k.mem (t0 + 8 * px 0 va) ≡ 0)

-- The page `q` is not free, and the path from `pt`, as far as it exists, has none of its lower tables there.
pub record Spare (k : Kernel) (ps : List ℕ) (pt va q : ℕ) : Type 0 where
  pub used : q ∉ ps
  pub middle :
      is_valid (k.mem (pt + 8 * px 2 va)) ≡ true → pte_to_page (k.mem (pt + 8 * px 2 va)) ≢ q
  pub leaf :
      is_valid (k.mem (pt + 8 * px 2 va)) ≡ true
      → is_valid (k.mem (pte_to_page (k.mem (pt + 8 * px 2 va)) + 8 * px 1 va)) ≡ true
      → pte_to_page (k.mem (pte_to_page (k.mem (pt + 8 * px 2 va)) + 8 * px 1 va)) ≢ q

-- What an allocating walk leaves: a path of three tables to the entry, the free pages that it did not
-- take, and memory changed only in two entries and in pages that were free.
pub record Built (k k' : Kernel) (ps ps' : List ℕ) (va t2 t1 t0 : ℕ) : Type 0 where
  pub path : Path3 k'.mem va t2 t1 t0
  pub free : IsFree k' ps'
  pub same_end : k'.kernel_end ≡ k.kernel_end
  pub fewer : (q : ℕ) → q ∉ ps → q ∉ ps'
  pub used0 : t0 ∉ ps'
  pub aligned : (t1 % page_size ≡ 0) × (t0 % page_size ≡ 0)
  pub elsewhere : (q : ℕ) → Spare k ps t2 va q → (t1 ≢ q) × (t0 ≢ q)
  pub empty : Unmapped k t2 va → (0 < t0) × (k'.mem (t0 + 8 * px 0 va) ≡ 0)
  pub spared :
      (b : ℕ)
      → page_round_down b ∉ ps
      → b ≢ t2 + 8 * px 2 va
      → b ≢ t1 + 8 * px 1 va
      → k'.mem b ≡ k.mem b

lt→leb : (a b : ℕ) → a < b → leb b a ≡ false
lt→leb a b h = ground arith

entry-InPage : (t l va : ℕ) → InPage t (t + 8 * px l va)
entry-InPage t l va = omega arith

-- A page of the free list is none that lies outside it.
ne_of_has : (p q : ℕ) (ps : List ℕ) → has p ps ≡ true → q ∉ ps → q ≢ p
ne_of_has p q ps h out e = cc (ap (λ x. has x ps) e)

abbrev pub Walked : Kernel → List ℕ → ℕ → ℕ → Type 0
Walked k ps pt va =
    ((k' : Kernel) × (walk pt va true k ≡ ok 0 k') × IsFree k' [])
    ⊎ ((k' : Kernel) × (ps' : List ℕ) × (t1 t0 : ℕ) × (walk pt va true k ≡ ok (t0 + 8 * px 0 va) k')
        × Built k k' ps ps' va pt t1 t0)

module _ (k : Kernel) (ps : List ℕ) (pt va : ℕ) (lt : va < max_va) (f : IsFree k ps)
    (tabs : Tables k ps pt va) where
  abbrev a2 : ℕ
  a2 = pt + 8 * px 2 va

  first_step : Steps k ps pt a2
  first_step =
      descend-Below k ps pt a2 f tabs.root tabs.root_used (entry-InPage pt 2 va) tabs.middle

  -- A leaf table that exists after the first step existed before.
  old_leaf :
      (k1 : Kernel) (ps1 : List ℕ) (t1 : ℕ)
      → Below k k1 ps ps1 pt a2 t1
      → is_valid (k1.mem (t1 + 8 * px 1 va)) ≡ true
      → let t0 = pte_to_page (k1.mem (t1 + 8 * px 1 va)) in (t0 ∉ ps1) × (t0 ≢ pt) × (t0 ≢ t1)
  old_leaf k1 ps1 t1 b v = elim b.origin [
    | inl (v2, e, es) ↦
        let c : pte_to_page (k.mem a2) ≡ t1 = rw (← e) b.child in
        let v' : is_valid (k.mem (pte_to_page (k.mem a2) + 8 * px 1 va)) ≡ true = rw (c, ← e) v in
        rw (e, es, ← c) (tabs.leaf v2 v')
    | inr (_, _, blank) ↦ absurd (ground (arith, blank (t1 + 8 * px 1 va) (entry-InPage t1 1 va)))
  ]

  second_step :
      (k1 : Kernel) (ps1 : List ℕ) (t1 : ℕ)
      → Below k k1 ps ps1 pt a2 t1
      → Steps k1 ps1 t1 (t1 + 8 * px 1 va)
  second_step k1 ps1 t1 b =
      descend-Below k1 ps1 t1 _ b.free b.aligned b.used (entry-InPage t1 1 va)
        λ v. let (out, _, ne) = old_leaf k1 ps1 t1 b v in (out, ne)

  second_apart :
      (k1 : Kernel) (ps1 : List ℕ) (t1 : ℕ)
      → Below k k1 ps ps1 pt a2 t1
      → (k2 : Kernel) (ps2 : List ℕ) (t0 : ℕ) → Below k1 k2 ps1 ps2 t1 (t1 + 8 * px 1 va) t0
      → pt ≢ t0
  second_apart k1 ps1 t1 b k2 ps2 t0 c e = elim c.origin [
    | inl (v, e2, _) ↦
        let c1 : pte_to_page (k1.mem (t1 + 8 * px 1 va)) ≡ t0 = rw (← e2) c.child in
        (old_leaf k1 ps1 t1 b v).1 (c1 ∙ sym e)
    | inr (h, _, _) ↦ ne_of_has t0 pt ps1 h (b.fewer pt tabs.root_used) e
  ]

  -- The leaf entry is empty if it was, or if its table is new.
  leaf_empty :
      (k1 : Kernel) (ps1 : List ℕ) (t1 : ℕ)
      → Below k k1 ps ps1 pt a2 t1
      → (k2 : Kernel) (ps2 : List ℕ) (t0 : ℕ) → Below k1 k2 ps1 ps2 t1 (t1 + 8 * px 1 va) t0
      → Unmapped k pt va
      → (0 < t0) × (k2.mem (t0 + 8 * px 0 va) ≡ 0)
  leaf_empty k1 ps1 t1 b k2 ps2 t0 c un = elim c.origin [
    | inr (_, pos, blank) ↦ (pos, blank _ (entry-InPage t0 0 va))
    | inl (v1, e2, _) ↦ elim b.origin [
      | inr (_, _, blank) ↦ absurd (ground (arith, blank (t1 + 8 * px 1 va) (entry-InPage t1 1 va)))
      | inl (v2, e1, _) ↦
          let c2 : pte_to_page (k.mem a2) ≡ t1 = rw (← e1) b.child in
          let v' : is_valid (k.mem (pte_to_page (k.mem a2) + 8 * px 1 va)) ≡ true =
            rw (c2, ← e1) v1 in
          let c1 : pte_to_page (k.mem (pte_to_page (k.mem a2) + 8 * px 1 va)) ≡ t0 =
            rw (c2, ← e1, ← e2) c.child in
          rw (e2, e1, ← c1) (un.empty v2 v')
    ]
  ]

  -- The two lower tables were in the path, or were free.
  both_elsewhere :
      (k1 : Kernel) (ps1 : List ℕ) (t1 : ℕ)
      → Below k k1 ps ps1 pt a2 t1
      → (k2 : Kernel) (ps2 : List ℕ) (t0 : ℕ) → Below k1 k2 ps1 ps2 t1 (t1 + 8 * px 1 va) t0
      → (q : ℕ) → Spare k ps pt va q
      → (t1 ≢ q) × (t0 ≢ q)
  both_elsewhere k1 ps1 t1 b k2 ps2 t0 c q s = (
    elim b.origin [
      | inl (v2, e1, _) ↦
          let c2 : pte_to_page (k.mem a2) ≡ t1 = rw (← e1) b.child in λ e. s.middle v2 (c2 ∙ e)
      | inr (h, _, _) ↦ λ e. ne_of_has t1 q ps h s.used (sym e)
    ],
    elim c.origin [
      | inr (h, _, _) ↦ λ e. ne_of_has t0 q ps1 h (b.fewer q s.used) (sym e)
      | inl (v1, e2, _) ↦ elim b.origin [
        | inr (_, _, blank) ↦
            absurd (ground (arith, blank (t1 + 8 * px 1 va) (entry-InPage t1 1 va)))
        | inl (v2, e1, _) ↦
            let c2 : pte_to_page (k.mem a2) ≡ t1 = rw (← e1) b.child in
            let v' : is_valid (k.mem (pte_to_page (k.mem a2) + 8 * px 1 va)) ≡ true =
              rw (c2, ← e1) v1 in
            let c1 : pte_to_page (k.mem (pte_to_page (k.mem a2) + 8 * px 1 va)) ≡ t0 =
              rw (c2, ← e1, ← e2) c.child in
            λ e. s.leaf v2 v' (c1 ∙ e)
      ]
    ],
  )

  both-Built :
      (k1 : Kernel) (ps1 : List ℕ) (t1 : ℕ)
      → Below k k1 ps ps1 pt a2 t1
      → (k2 : Kernel) (ps2 : List ℕ) (t0 : ℕ) → Below k1 k2 ps1 ps2 t1 (t1 + 8 * px 1 va) t0
      → Built k k2 ps ps2 va pt t1 t0
  both-Built k1 ps1 t1 b k2 ps2 t0 c =
      let kept : k2.mem a2 ≡ k1.mem a2 =
        c.spared a2
          (let e : page_round_down a2 ≡ pt = let z = tabs.root in omega arith in
            rw e (b.fewer pt tabs.root_used))
          (λ e. b.apart (let z = tabs.root in let y = b.aligned in omega arith)) in
      record {
        path = record {
          valid2 = rw kept b.valid;
          child2 = rw kept b.child;
          valid1 = c.valid;
          child1 = c.child;
          aligned2 = tabs.root;
          aligned1 = b.aligned;
          aligned0 = c.aligned;
          apart21 = λ e. b.apart (sym e);
          apart20 = second_apart k1 ps1 t1 b k2 ps2 t0 c;
          apart10 = λ e. c.apart (sym e);
        };
        free = c.free;
        same_end = c.same_end ∙ b.same_end;
        fewer = λ q h. c.fewer q (b.fewer q h);
        used0 = c.used;
        aligned = (b.aligned, c.aligned);
        elsewhere = both_elsewhere k1 ps1 t1 b k2 ps2 t0 c;
        empty = leaf_empty k1 ps1 t1 b k2 ps2 t0 c;
        spared = λ x h n2 n1. c.spared x (b.fewer _ h) n1 ∙ b.spared x h n2;
      }

  walk-full1 : (k1 : Kernel) → descend a2 true k ≡ ok none k1 → walk pt va true k ≡ ok 0 k1
  unfolding walk walk_levels
  walk-full1 k1 e = rw (lt→leb _ _ lt, e)

  walk-full2 :
      (k1 k2 : Kernel) (t1 : ℕ)
      → descend a2 true k ≡ ok (some t1) k1
      → descend (t1 + 8 * px 1 va) true k1 ≡ ok none k2
      → walk pt va true k ≡ ok 0 k2
  unfolding walk walk_levels
  walk-full2 k1 k2 t1 e e' = rw (lt→leb _ _ lt, e, e')

  walk-both :
      (k1 k2 : Kernel) (t1 t0 : ℕ)
      → descend a2 true k ≡ ok (some t1) k1
      → descend (t1 + 8 * px 1 va) true k1 ≡ ok (some t0) k2
      → walk pt va true k ≡ ok (t0 + 8 * px 0 va) k2
  unfolding walk walk_levels
  walk-both k1 k2 t1 t0 e e' = rw (lt→leb _ _ lt, e, e')

  Full-IsFree : (k1 k2 : Kernel) (ps1 : List ℕ) → IsFree k1 ps1 → Full k1 ps1 k2 → IsFree k2 []
  Full-IsFree k1 k2 ps1 f1 (e, r) = rw r ((kalloc-empty k1 (rw e at f1)).1)

  -- Outside every critical section, with the lock of the allocator free, its free list well formed, and
  -- the tables on the path, as far as it exists, distinct and not free: walk() with `alloc` at an
  -- address below MAXVA returns, either a null pointer, and the free list is then empty, or the entry
  -- at the end of a path of three tables.
  pub walk-Built : Walked k ps pt va
  walk-Built = elim first_step [
    | inl (k1, e, full) ↦ inl (k1, walk-full1 k1 e, Full-IsFree k k1 ps f full)
    | inr (k1, ps1, t1, e, b) ↦ elim (second_step k1 ps1 t1 b) [
      | inl (k2, e', full) ↦ inl (k2, walk-full2 k1 k2 t1 e e', Full-IsFree k1 k2 ps1 b.free full)
      | inr (k2, ps2, t0, e', c) ↦
          inr (k2, ps2, t1, t0, walk-both k1 k2 t1 t0 e e', both-Built k1 ps1 t1 b k2 ps2 t0 c)
    ]
  ]
