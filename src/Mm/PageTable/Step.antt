-- ===== src/Mm/PageTable/Step.antt =====
-- One step of walk() with `alloc`: the table below an entry is there already, comes from the free
-- list, or is refused.
use page_fault_os_for_risc_v.Prelude.{
  ℕ, ◌+◌, ◌%◌, ◌≤◌, ◌<◌, ◌≡◌, ◌≢◌, ◌⊎◌, refl, ap, true, false, List, [], ◌∷◌, arith, none, some,
  ◌==◌, Bool-cases, inl, inr, eq→==,
}
use page_fault_os_for_risc_v.Kernel.{Kernel, Memory, write_word}
use page_fault_os_for_risc_v.Kernel.Run.{ok}
use page_fault_os_for_risc_v.Mm.Layout.{
  page_size, page_round_down, is_valid, page_to_pte, pte_to_page, fill_page,
}
use page_fault_os_for_risc_v.Mm.Kalloc.Chain.{IsPage, has, ◌∉◌, Chain-fill_page, Chain-frame}
use page_fault_os_for_risc_v.Mm.Kalloc.Laws.{IsFree, given, refused, kalloc-IsFree, kalloc-empty}
use page_fault_os_for_risc_v.Mm.PageTable.{new_table, descend}

-- The kernel after the entry at `a` got the new table `p`.
abbrev pub grown : ℕ → ℕ → Kernel → Kernel
grown a p k = record (given p k) {
  mem = write_word (fill_page (given p k).mem p 0) a (page_to_pte p + 1);
}

-- `a` is an entry of the table at `t`.
abbrev pub InPage : ℕ → ℕ → Type 0
InPage t a = (t ≤ a) × (a < t + page_size)

module _ (k : Kernel) (t a : ℕ) (al : t % page_size ≡ 0) (at : InPage t a) where
  entry-spared :
      (m : Memory) (v : ℕ) (ps : List ℕ) (b : ℕ) {e : ℕ}
      → IsPage e b
      → t ∉ ps
      → has b ps ≡ true
      → write_word m a v b ≡ m b
  unfolding write_word
  entry-spared m v ps b i out h =
      let z = i.aligned in let ne : t ≢ b = λ e. cc (ap (λ x. has x ps) e) in ground arith

  -- A write into a table that is not free spares the free list.
  grown-IsFree : (p : ℕ) (ps : List ℕ) → IsFree k (p ∷ ps) → t ∉ (p ∷ ps) → IsFree (grown a p k) ps
  unfolding write_word
  grown-IsFree p ps f out = record {
    chain =
        Chain-frame k.kernel_end (fill_page (given p k).mem p 0) _ _ ps
          (λ b i h. entry-spared (fill_page (given p k).mem p 0) _ ps b i (ground arith) h)
          (Chain-fill_page k.kernel_end _ p 0 _ ps f.chain.1.aligned f.chain.2
            (kalloc-IsFree k p ps f).1.chain);
    count = (kalloc-IsFree k p ps f).1.count;
    unlocked = refl;
    depth = refl;
  }

new_table-grown :
    (k : Kernel) (a p : ℕ) (ps : List ℕ)
    → IsFree k (p ∷ ps)
    → new_table a k ≡ ok (some p) (grown a p k)
unfolding new_table
new_table-grown k a p ps f =
    let ne : (p == 0) ≡ false = let z = f.chain.1.ne_zero in ground arith in
    rw ((kalloc-IsFree k p ps f).0, ne)

new_table-none : (k : Kernel) (a : ℕ) → IsFree k [] → new_table a k ≡ ok none (refused k)
unfolding new_table
new_table-none k a f = rw ((kalloc-empty k f).0)

-- The entry that a new table gets: valid, and leads to the table.
new_entry :
    (e p : ℕ)
    → IsPage e p
    → (is_valid (page_to_pte p + 1) ≡ true) × (pte_to_page (page_to_pte p + 1) ≡ p)
new_entry e p i = (ground arith, let z = i.aligned in let y = i.below in omega arith)

-- What a step from the entry at `a` of the table `t` to the table `p` leaves: the entry leads to `p`,
-- the pages `ps'` of `ps` are still free, and only that entry and former free pages have changed.
pub record Below (k k' : Kernel) (ps ps' : List ℕ) (t a p : ℕ) : Type 0 where
  pub valid : is_valid (k'.mem a) ≡ true
  pub child : pte_to_page (k'.mem a) ≡ p
  pub aligned : p % page_size ≡ 0
  pub apart : p ≢ t
  pub used : p ∉ ps'
  pub free : IsFree k' ps'
  pub same_end : k'.kernel_end ≡ k.kernel_end
  pub fewer : (q : ℕ) → q ∉ ps → q ∉ ps'
  pub spared : (b : ℕ) → page_round_down b ∉ ps → b ≢ a → k'.mem b ≡ k.mem b
  pub origin :
      ((is_valid (k.mem a) ≡ true) × (k' ≡ k) × (ps' ≡ ps))
      ⊎ ((has p ps ≡ true) × (0 < p) × ((b : ℕ) → InPage p b → k'.mem b ≡ 0))

-- Without a free page a step fails.
abbrev pub Full : Kernel → List ℕ → Kernel → Type 0
Full k ps k' = (ps ≡ []) × (k' ≡ refused k)

module _ (k : Kernel) (t a : ℕ) (al : t % page_size ≡ 0) (at : InPage t a) where
  grown-Below :
      (p : ℕ) (ps : List ℕ)
      → IsFree k (p ∷ ps)
      → t ∉ (p ∷ ps)
      → Below k (grown a p k) (p ∷ ps) ps t a p
  unfolding write_word fill_page
  grown-Below p ps f out =
      let page = f.chain.1 in
      let here : (a == a) ≡ true = eq→== a a refl in
      record {
        valid = rw here (new_entry _ p page).0;
        child = rw here (new_entry _ p page).1;
        aligned = page.aligned;
        apart = λ e. ground arith;
        used = f.chain.2;
        free = grown-IsFree k t a al at p ps f out;
        same_end = refl;
        fewer = λ q h. ground arith;
        spared = λ b h ne. let z = page.aligned in ground arith;
        origin =
            inr (rw (eq→== p p refl), page.ne_zero, λ b i. let z = page.aligned in ground arith);
      }

-- Either outcome of a step, or of a walk, that allocates.
abbrev pub Steps : Kernel → List ℕ → ℕ → ℕ → Type 0
Steps k ps t a =
    ((k' : Kernel) × (descend a true k ≡ ok none k') × Full k ps k')
    ⊎ ((k' : Kernel) × (ps' : List ℕ) × (p : ℕ) × (descend a true k ≡ ok (some p) k')
        × Below k k' ps ps' t a p)

descend-new :
    (k : Kernel) (ps : List ℕ) (t a : ℕ)
    → IsFree k ps
    → t % page_size ≡ 0
    → t ∉ ps
    → InPage t a
    → is_valid (k.mem a) ≡ false
    → Steps k ps t a
unfolding descend
descend-new k [] t a f al out at inv = inl (refused k, rw inv (new_table-none k a f), (refl, refl))
descend-new k (p ∷ ps) t a f al out at inv =
    inr
      (grown a p k, ps, p, rw inv (new_table-grown k a p ps f), grown-Below k t a al at p ps f out)

pub descend-Below :
    (k : Kernel) (ps : List ℕ) (t a : ℕ)
    → IsFree k ps
    → t % page_size ≡ 0
    → t ∉ ps
    → InPage t a
    → (is_valid (k.mem a) ≡ true → (pte_to_page (k.mem a) ∉ ps) × (pte_to_page (k.mem a) ≢ t))
    → Steps k ps t a
unfolding descend
descend-Below k ps t a f al out at old = elim (Bool-cases (is_valid (k.mem a))) [
  | inl v ↦ inr (
    k,
    ps,
    pte_to_page (k.mem a),
    rw v,
    record {
      valid = v;
      child = refl;
      aligned = omega arith;
      apart = (old v).1;
      used = (old v).0;
      free = f;
      same_end = refl;
      fewer = λ q h. h;
      spared = λ b h ne. refl;
      origin = inl (v, refl, refl);
    },
  )
  | inr inv ↦ descend-new k ps t a f al out at inv
]
