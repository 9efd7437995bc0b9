-- ===== src/Mm/Kalloc/Chain.antt =====
-- The free list as a chain of distinct pages in memory.
use page_fault_os_for_risc_v.Prelude.{
  ℕ, ◌%◌, ◌≤◌, ◌<◌, ◌≡◌, ◌≢◌, Bool, true, false, ◌||◌, List, [], ◌∷◌, arith, ◌==◌,
}
use page_fault_os_for_risc_v.Kernel.{Memory, write_word}
use page_fault_os_for_risc_v.Mm.Layout.{page_size, phys_stop, fill_page}

-- What kfree() accepts, but for the null address.
pub record IsPage (kernel_end p : ℕ) : Type 0 where
  pub aligned : p % page_size ≡ 0
  pub above : kernel_end ≤ p
  pub below : p ≤ phys_stop
  pub ne_zero : 0 < p

abbrev pub has : ℕ → List ℕ → Bool
has a [] = false
has a (p ∷ ps) = (a == p) || has a ps

infix 40 ◌∉◌
abbrev pub ◌∉◌ : ℕ → List ℕ → Type 0
a ∉ ps = has a ps ≡ false

-- From `p` the first words of the pages lead through `ps`, with no repetition, to 0.
abbrev pub Chain : ℕ → Memory → ℕ → List ℕ → Type 0
Chain e m p [] = p ≡ 0
Chain e m p (q ∷ ps) = (p ≡ q) × IsPage e q × (q ∉ ps) × Chain e m (m q) ps

-- A chain survives a change of memory that spares the first words of its pages.
pub Chain-frame :
    (e : ℕ) (m m' : Memory) (p : ℕ) (ps : List ℕ)
    → ((a : ℕ) → IsPage e a → has a ps ≡ true → m' a ≡ m a)
    → Chain e m p ps
    → Chain e m' p ps
Chain-frame e m m' p [] same c = c
Chain-frame e m m' p (q ∷ ps) same (here, page, out, rest) = (
  here,
  page,
  out,
  rw (same q page (ground arith))
      (Chain-frame e m m' (m q) ps (λ a i h. same a i (ground arith)) rest),
)

-- Filling a page spares the first word of every other page.
pub fill_page-other :
    (m : Memory) (pa c a : ℕ)
    → pa % page_size ≡ 0
    → a % page_size ≡ 0
    → a ≢ pa
    → fill_page m pa c a ≡ m a
unfolding fill_page
fill_page-other m pa c a h i ne = ground arith

pub Chain-fill_page :
    (e : ℕ) (m : Memory) (pa c p : ℕ) (ps : List ℕ)
    → pa % page_size ≡ 0
    → pa ∉ ps
    → Chain e m p ps
    → Chain e (fill_page m pa c) p ps
Chain-fill_page e m pa c p ps h out =
    Chain-frame e m (fill_page m pa c) p ps
      λ a i h'. fill_page-other m pa c a h i.aligned (λ eq. cc)

pub Chain-write_word :
    (e : ℕ) (m : Memory) (a v p : ℕ) (ps : List ℕ)
    → a ∉ ps
    → Chain e m p ps
    → Chain e (write_word m a v) p ps
unfolding write_word
Chain-write_word e m a v p ps out = Chain-frame e m (write_word m a v) p ps λ b i h. ground arith
