-- ===== src/Fs/Fat/Entries/Checksum.antt =====
-- What the checksum of a short name tells.
use page_fault_os_for_risc_v.Prelude.{
  ℕ, zero, suc, ◌+◌, ◌<◌, ◌≤◌, ◌≡◌, ◌≢◌, arith, ◌==◌, Bool-cases, inl, inr,
}
use page_fault_os_for_risc_v.Fs.Fat.Entries.{Name, add_to_sum, checksum_from, tf_lfn_checksum}

-- A round tells the sums apart, and the characters.
add_to_sum-sums : (a b c : ℕ) → a < 256 → b < 256 → a ≢ b → add_to_sum a c ≢ add_to_sum b c
add_to_sum-sums a b c la lb ne e = ne (omega (arith, e))

add_to_sum-chars : (a c d : ℕ) → c < 256 → d < 256 → c ≢ d → add_to_sum a c ≢ add_to_sum a d
add_to_sum-chars a c d lc ld ne e = ne (omega (arith, e))

-- Equal characters keep different sums apart.
checksum_from-sums :
    (n i a b : ℕ) (s t : Name)
    → a < 256
    → b < 256
    → a ≢ b
    → ((j : ℕ) → i ≤ j → j < i + n → s j ≡ t j)
    → checksum_from n i a s ≢ checksum_from n i b t
unfolding checksum_from
checksum_from-sums zero i a b s t la lb ne same = ne
checksum_from-sums (suc n) i a b s t la lb ne same =
    let c : s i ≡ t i = same i (omega arith) (omega arith) in
    checksum_from-sums n (i + 1) (add_to_sum a (s i)) (add_to_sum b (t i)) s t (omega arith)
      (omega arith) (rw c (add_to_sum-sums a b (t i) la lb ne))
      (λ j l h. same j (omega (arith, l)) (omega (arith, h)))

checksum_from-chars :
    (n i k a : ℕ) (s t : Name)
    → i ≤ k
    → k < i + n
    → s k < 256
    → t k < 256
    → s k ≢ t k
    → ((j : ℕ) → i ≤ j → j < i + n → j ≢ k → s j ≡ t j)
    → checksum_from n i a s ≢ checksum_from n i a t
unfolding checksum_from
checksum_from-chars zero i k a s t lo hi ls lt ne same = absurd (omega arith)
checksum_from-chars (suc n) i k a s t lo hi ls lt ne same = elim (Bool-cases (i == k)) [
  | inl e ↦
      let e' : i ≡ k = ground arith in
      rw e' (
        checksum_from-sums n (k + 1) (add_to_sum a (s k)) (add_to_sum a (t k)) s t (omega arith)
          (omega arith) (add_to_sum-chars a (s k) (t k) ls lt ne)
          (λ j l h. same j (omega (arith, l, e')) (omega (arith, h, e')) (omega (arith, l))))
  | inr n' ↦
      let c : s i ≡ t i = same i (omega arith) (omega arith) (ground arith) in
      rw c (
        checksum_from-chars n (i + 1) k (add_to_sum a (t i)) s t (ground arith) (omega arith) ls lt
          ne (λ j l h. same j (omega (arith, l)) (omega (arith, h))))
]

-- Two short names of which exactly one character differs have different checksums.
pub tf_lfn_checksum_lem :
    (k : ℕ) (s t : Name)
    → k < 11
    → s k < 256
    → t k < 256
    → s k ≢ t k
    → ((j : ℕ) → j < 11 → j ≢ k → s j ≡ t j)
    → tf_lfn_checksum s ≢ tf_lfn_checksum t
unfolding tf_lfn_checksum
tf_lfn_checksum_lem k s t lt ls l2 ne same =
    checksum_from-chars 11 0 k 0 s t (omega arith) (omega arith) ls l2 ne
      (λ j l h. same j (omega (arith, h)))
