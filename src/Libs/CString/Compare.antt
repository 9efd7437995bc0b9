-- ===== src/Libs/CString/Compare.antt =====
-- When memcmp() and strncmp() return 0.
use page_fault_os_for_risc_v.Prelude.{
  ℕ, zero, suc, ◌+◌, ◌<◌, ◌≡◌, ◌≢◌, ◌↔◌, ◌∙◌, refl, sym, ap, arith, ◌==◌, Bool-cases, inl, inr,
  ==_iff,
}
use page_fault_os_for_risc_v.Prelude.Int.{pos, sub_ℕ-zero_iff}
use page_fault_os_for_risc_v.Libs.CString.{Bytes, memcmp, strncmp}

shift : (m : Bytes) (p i : ℕ) → m (p + 1 + i) ≡ m (p + suc i)
shift m p i = ap m (omega arith)

at_zero : (m : Bytes) (p : ℕ) → m (p + 0) ≡ m p
at_zero m p = ap m (omega arith)

-- The `n` bytes from `p` and from `q` on are the same.
abbrev pub SameBytes : Bytes → ℕ → ℕ → ℕ → Type 0
SameBytes m p q n = (i : ℕ) → i < n → m (p + i) ≡ m (q + i)

-- The two strings have the same characters, up to a NUL or to `n` of them.
abbrev pub SameString : Bytes → ℕ → ℕ → ℕ → Type 0
SameString m p q n = (i : ℕ) → i < n → ((j : ℕ) → j < i → m (p + j) ≢ 0) → m (p + i) ≡ m (q + i)

NoNul-suc :
    (m : Bytes) (p i : ℕ)
    → m p ≢ 0
    → ((j : ℕ) → j < i → m (p + 1 + j) ≢ 0)
    → (j : ℕ) → j < suc i
    → m (p + j) ≢ 0
NoNul-suc m p i nz nn zero lt e = nz (sym (at_zero m p) ∙ e)
NoNul-suc m p i nz nn (suc j) lt e = nn j (omega arith) (shift m p j ∙ e)

memcmp-SameBytes : (m : Bytes) (p q n : ℕ) → memcmp m p q n ≡ pos 0 → SameBytes m p q n
unfolding memcmp
memcmp-SameBytes m p q zero h i lt = absurd (omega arith)
memcmp-SameBytes m p q (suc n) h zero lt =
    at_zero m p ∙ ground (arith, at_zero m q, sub_ℕ-zero_iff (m p) (m q))
memcmp-SameBytes m p q (suc n) h (suc i) lt = elim (Bool-cases (m p == m q)) [
  | inl e ↦
      sym (shift m p i)
      ∙ memcmp-SameBytes m (p + 1) (q + 1) n (rw e at h) i (omega arith)
      ∙ shift m q i
  | inr ne ↦ absurd (ground (arith, sub_ℕ-zero_iff (m p) (m q)))
]

SameBytes-memcmp : (m : Bytes) (p q n : ℕ) → SameBytes m p q n → memcmp m p q n ≡ pos 0
unfolding memcmp
SameBytes-memcmp m p q zero h = refl
SameBytes-memcmp m p q (suc n) h =
    let e : m p ≡ m q = sym (at_zero m p) ∙ h 0 (omega arith) ∙ at_zero m q in
    rw ((==_iff (m p) (m q)).1 e) (
      SameBytes-memcmp m (p + 1) (q + 1) n
        (λ i lt. shift m p i ∙ h (suc i) (omega arith) ∙ sym (shift m q i)))

-- memcmp() returns 0 exactly if the two runs of bytes are equal.
pub memcmp_iff : (m : Bytes) (p q n : ℕ) → (memcmp m p q n ≡ pos 0) ↔ SameBytes m p q n
memcmp_iff m p q n = (memcmp-SameBytes m p q n, SameBytes-memcmp m p q n)

strncmp-SameString : (m : Bytes) (p q n : ℕ) → strncmp m p q n ≡ pos 0 → SameString m p q n
unfolding strncmp
strncmp-SameString m p q zero h i lt nn = absurd (omega arith)
strncmp-SameString m p q (suc n) h zero lt nn =
    at_zero m p ∙ ground (arith, at_zero m q, sub_ℕ-zero_iff (m p) (m q))
strncmp-SameString m p q (suc n) h (suc i) lt nn =
    let ne : m p ≢ 0 = λ z. nn 0 (omega arith) (at_zero m p ∙ z) in
    elim (Bool-cases (m p == m q)) [
      | inl e ↦
          sym (shift m p i)
          ∙ strncmp-SameString m (p + 1) (q + 1) n (ground arith) i (omega arith)
              (λ j lt' z. nn (suc j) (omega arith) (sym (shift m p j) ∙ z))
          ∙ shift m q i
      | inr d ↦ absurd (ground (arith, sub_ℕ-zero_iff (m p) (m q)))
    ]

SameString-strncmp : (m : Bytes) (p q n : ℕ) → SameString m p q n → strncmp m p q n ≡ pos 0
unfolding strncmp
SameString-strncmp m p q zero h = refl
SameString-strncmp m p q (suc n) h =
    let e : m p ≡ m q =
      sym (at_zero m p) ∙ h 0 (omega arith) (λ j lt. absurd (omega arith)) ∙ at_zero m q in
    elim (Bool-cases (m p == 0)) [
      | inl z ↦ rw z ((sub_ℕ-zero_iff (m p) (m q)).1 e)
      | inr nz ↦
          rw (nz, (==_iff (m p) (m q)).1 e)
            (SameString-strncmp m (p + 1) (q + 1) n λ i lt nn.
              shift m p i
              ∙ h (suc i) (omega arith) (NoNul-suc m p i (λ z'. ground arith) nn)
              ∙ sym (shift m q i))
    ]

-- strncmp() returns 0 exactly if the two strings agree up to a NUL or to `n` characters.
pub strncmp_iff : (m : Bytes) (p q n : ℕ) → (strncmp m p q n ≡ pos 0) ↔ SameString m p q n
strncmp_iff m p q n = (strncmp-SameString m p q n, SameString-strncmp m p q n)
