-- ===== src/Libs/CString/Move.antt =====
-- What memset() and memmove() leave at each address.
use page_fault_os_for_risc_v.Prelude.{
  ℕ, zero, suc, ◌+◌, ◌-◌, ◌%◌, ◌≤◌, ◌≡◌, ◌∙◌, Bool, false, ◌&&◌, arith, ltb, leb, ◌==◌,
  if◌then◌else◌, Bool-cases, inl, inr,
}
use page_fault_os_for_risc_v.Libs.CString.{
  Bytes, write, memset_from, memset, copy_down, copy_up, memmove,
}

-- `a` is one of the `n` addresses from `p` on.
abbrev pub within : ℕ → ℕ → ℕ → Bool
within p n a = leb p a && ltb a (p + n)

memset_from_lem :
    (n i : ℕ) (m : Bytes) (dst c a : ℕ)
    → memset_from n i m dst c a ≡ (if within (dst + i) n a then c % 256 else m a)
unfolding memset_from write
memset_from_lem zero i m dst c a = ground arith
memset_from_lem (suc n) i m dst c a =
    memset_from_lem n (i + 1) (write m (dst + i) (c % 256)) dst c a ∙ ground arith

-- memset() writes the low byte of `c` at the `n` addresses from `dst` on, and nothing else.
pub memset_lem :
    (m : Bytes) (dst c n a : ℕ) → memset m dst c n a ≡ (if within dst n a then c % 256 else m a)
unfolding memset
memset_lem m dst c n a = memset_from_lem n 0 m dst c a ∙ ground arith

-- A copy upwards is right if the target starts at or below the source, or behind its end.
copy_up_lem :
    (n : ℕ) (m : Bytes) (d s a : ℕ)
    → (ltb s d && ltb d (s + n)) ≡ false
    → copy_up n m d s a ≡ (if within d n a then m (s + (a - d)) else m a)
unfolding copy_up write
copy_up_lem zero m d s a h = ground arith
copy_up_lem (suc n) m d s a h =
    copy_up_lem n (write m d (m s)) (d + 1) (s + 1) a (ground arith)
    ∙ elim (Bool-cases (within (d + 1) n a)) [
      | inl i ↦
          let e : s + 1 + (a - (d + 1)) ≡ s + (a - d) = ground arith in rw (i, e) (ground arith)
      | inr o ↦ rw o (elim (Bool-cases (d == a)) [
        | inl e ↦ let e' : s + (a - d) ≡ s = ground arith in rw e' (ground arith)
        | inr ne ↦ ground arith
      ])
    ]

copy_down_lem :
    (n : ℕ) (m : Bytes) (d s a : ℕ)
    → s ≤ d
    → copy_down n m (d + n) (s + n) a ≡ (if within d n a then m (s + (a - d)) else m a)
unfolding copy_down write
copy_down_lem zero m d s a h = ground arith
copy_down_lem (suc n) m d s a h =
    let e : d + suc n - 1 ≡ d + n = omega arith in
    let e' : s + suc n - 1 ≡ s + n = omega arith in
    rw (e, e')
      (copy_down_lem n (write m (d + n) (m (s + n))) d s a h ∙ elim (Bool-cases (within d n a)) [
        | inl i ↦ rw i (ground arith)
        | inr o ↦ rw o (elim (Bool-cases (d + n == a)) [
          | inl e ↦ let e' : s + (a - d) ≡ s + n = ground arith in rw e' (ground arith)
          | inr ne ↦ ground arith
        ])
      ])

-- memmove() copies the source as it was before the call, also where the two overlap, and changes
-- nothing else.
pub memmove_lem :
    (m : Bytes) (d s n a : ℕ) → memmove m d s n a ≡ (if within d n a then m (s + (a - d)) else m a)
unfolding memmove
memmove_lem m d s n a = elim (Bool-cases (ltb s d && ltb d (s + n))) [
  | inl down ↦ rw down (copy_down_lem n m d s a (ground arith))
  | inr up ↦ rw up (copy_up_lem n m d s a up)
]
