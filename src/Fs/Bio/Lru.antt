-- ===== src/Fs/Bio/Lru.antt =====
-- Which buffer allocBuffer() picks.
use page_fault_os_for_risc_v.Prelude.{
  ℕ, zero, suc, ◌+◌, ◌≤◌, ◌<◌, ◌≡◌, ◌≢◌, Option, none, some, arith, ◌==◌, if◌then◌else◌, Bool-cases,
  inl, inr,
}
use page_fault_os_for_risc_v.Kernel.{Buf}
use page_fault_os_for_risc_v.Fs.Bio.{buffer_num, Choice, hit, miss, is_earlier, choose_from, choose}

-- The answer for the buffers from `lo` to `hi`, `e` being the least recently used free one: none is free
-- and `e` is none, or `e` is free, is not used later than any other free one, and earlier than those before it.
abbrev pub Oldest : (ℕ → Buf) → (hi : ℕ) → Option ℕ → Type 0
Oldest t hi none = (j : ℕ) → j < hi → (t j).refcnt ≢ 0
Oldest t hi (some e) =
    (e < hi)
    × ((t e).refcnt ≡ 0)
    × ((j : ℕ) → j < hi → (t j).refcnt ≡ 0 → (t e).last_use_tick ≤ (t j).last_use_tick)
    × ((j : ℕ) → j < e → (t j).refcnt ≡ 0 → (t e).last_use_tick < (t j).last_use_tick)

-- What holds of `i` and of all before it holds of all before `i + 1`.
up_to : (P : ℕ → Type 0) (i : ℕ) → P i → ((j : ℕ) → j < i → P j) → (j : ℕ) → j < i + 1 → P j
up_to P i here before j lt = elim (Bool-cases (j == i)) [
  | inl y ↦ let y' : j ≡ i = ground arith in rw y' here
  | inr d ↦ before j (ground arith)
]

-- One round keeps the answer right.
Oldest-next :
    (t : ℕ → Buf) (i : ℕ) (e : Option ℕ)
    → Oldest t i e
    → Oldest t (i + 1) (if is_earlier t i e then some i else e)
Oldest-next t i none h = elim (Bool-cases ((t i).refcnt == 0)) [
  | inl z ↦ rw z (
    omega arith,
    ground arith,
    up_to (λ j. (t j).refcnt ≡ 0 → (t i).last_use_tick ≤ (t j).last_use_tick) i (λ _. omega arith)
        (λ j lt f. absurd (h j lt f)),
    λ j lt f. absurd (h j lt f),
  )
  | inr nz ↦ rw nz (up_to (λ j. (t j).refcnt ≢ 0) i (ground arith) h)
]
Oldest-next t i (some e) (lt, z, least, first) = elim (Bool-cases (is_earlier t i (some e))) [
  | inl y ↦
      let sooner : (t i).last_use_tick < (t e).last_use_tick = ground arith in
      rw y (
        omega arith,
        ground arith,
        up_to (λ j. (t j).refcnt ≡ 0 → (t i).last_use_tick ≤ (t j).last_use_tick) i
            (λ _. omega arith) (λ j l f. let a = least j l f in omega arith),
        λ j l f. let a = least j l f in omega arith,
      )
  | inr n ↦ rw n (
    omega arith,
    z,
    up_to (λ j. (t j).refcnt ≡ 0 → (t e).last_use_tick ≤ (t j).last_use_tick) i (λ f. ground arith)
        least,
    first,
  )
]

-- What the search comes to.
abbrev pub Chosen : (ℕ → Buf) → (hi blockno : ℕ) → Choice → Type 0
Chosen t hi blockno (hit i) =
    (i < hi) × ((t i).blockno ≡ blockno) × ((j : ℕ) → j < i → (t j).blockno ≢ blockno)
Chosen t hi blockno (miss e) = ((j : ℕ) → j < hi → (t j).blockno ≢ blockno) × Oldest t hi e

choose_from-Chosen :
    (n i blockno : ℕ) (e : Option ℕ) (t : ℕ → Buf)
    → ((j : ℕ) → j < i → (t j).blockno ≢ blockno)
    → Oldest t i e
    → Chosen t (i + n) blockno (choose_from n i e blockno t)
unfolding choose_from
choose_from-Chosen zero i blockno e t before h = let z : i + 0 ≡ i = omega arith in rw z (before, h)
choose_from-Chosen (suc n) i blockno e t before h = elim (Bool-cases ((t i).blockno == blockno)) [
  | inl y ↦ rw y (omega arith, ground arith, before)
  | inr ne ↦
      let shift : i + suc n ≡ i + 1 + n = omega arith in
      let before' : (j : ℕ) → j < i + 1 → (t j).blockno ≢ blockno =
        up_to (λ j. (t j).blockno ≢ blockno) i (ground arith) before in
      rw (ne, shift) (choose_from-Chosen n (i + 1) blockno _ t before' (Oldest-next t i e h))
]

-- allocBuffer() picks the first buffer that holds a block of that number; if there is none, the first of
-- the least recently used buffers among those that nobody holds, if there is one.
pub choose-Chosen : (blockno : ℕ) (t : ℕ → Buf) → Chosen t buffer_num blockno (choose blockno t)
unfolding choose
choose-Chosen blockno t =
    choose_from-Chosen buffer_num 0 blockno none t (λ j lt. absurd (omega arith))
      (λ j lt. absurd (omega arith))
