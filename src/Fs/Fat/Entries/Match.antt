-- ===== src/Fs/Fat/Entries/Match.antt =====
-- When the name of an entry is the one that is looked for.
use page_fault_os_for_risc_v.Prelude.{
  ℕ, zero, suc, ◌+◌, ◌<◌, ◌≤◌, ◌≡◌, ◌≢◌, ◌↔◌, refl, true, false, ltb, ◌==◌, arith, Bool-cases, inl,
  inr,
}
use page_fault_os_for_risc_v.Libs.CString.{to_low_case}
use page_fault_os_for_risc_v.Fs.Fat.Entries.{Name, same_letters, matches}

-- The characters from `i` to `i + n` are the same letters.
abbrev pub SameUpTo : (n i : ℕ) → (p q : Name) → Type 0
SameUpTo n i p q = (j : ℕ) → i ≤ j → j < i + n → to_low_case (p j) ≡ to_low_case (q j)

same_letters_iff :
    (n i : ℕ) (p q : Name)
    → ((j : ℕ) → i ≤ j → j < i + n → p j ≢ 0)
    → (same_letters n i p q ≡ true) ↔ SameUpTo n i p q
unfolding same_letters
same_letters_iff zero i p q nz = (λ e j l h. absurd (omega arith), λ s. refl)
same_letters_iff (suc n) i p q nz =
    let z : (p i == 0) ≡ false = let x = nz i (omega arith) (omega arith) in ground arith in
    let (to, from) = same_letters_iff n (i + 1) p q (λ j l h. nz j (omega arith) (omega arith)) in
    elim (Bool-cases (to_low_case (p i) == to_low_case (q i))) [
      | inl e ↦ (
        λ t j l h.
            let rest = to (rw (e, z) at t) in
            elim (Bool-cases (j == i)) [
              | inl y ↦ let y' : j ≡ i = ground arith in rw y' (ground arith)
              | inr y ↦ rest j (ground arith) (omega arith)
            ],
        λ s. rw (e, z) (from λ j l h. s j (omega arith) (omega arith)),
      )
      | inr e ↦ (
        λ t. absurd (let t' = rw e at t in cc),
        λ s. absurd (let x = s i (omega arith) (omega arith) in ground arith),
      )
    ]

-- A part of a path of at most 13 characters matches the name of an entry exactly if that has the same length and
-- the same letters, in either case.
pub matches_iff :
    (i : ℕ) (name file : Name)
    → i ≤ 13
    → ((j : ℕ) → j < i → name j ≢ 0)
    → (matches i name file ≡ true)
      ↔ ((file i ≡ 0) × ((j : ℕ) → j < i → to_low_case (name j) ≡ to_low_case (file j)))
matches_iff i name file small nz =
    let le : ltb 13 i ≡ false = ground arith in
    let (to, from) = same_letters_iff i 0 name file (λ j l h. nz j (omega arith)) in
    elim (Bool-cases (file i == 0)) [
      | inl z ↦ (
        λ t. (ground arith, λ j l. to (rw (le, z) at t) j (omega arith) (omega arith)),
        λ s. rw (le, z) (from λ j l h. s.1 j (omega arith)),
      )
      | inr n ↦
          (λ t. absurd (let t' = rw (le, n) at t in cc), λ s. absurd (let x = s.0 in ground arith))
    ]
