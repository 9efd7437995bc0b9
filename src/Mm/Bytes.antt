-- ===== src/Mm/Bytes.antt =====
-- Bytes of the memory of 64-bit words (the low byte first), and memmove() on it: the bytes that are
-- written come from a reader, which is memory before the call or a local variable of the caller.
use page_fault_os_for_risc_v.Prelude.{
  ℕ, zero, suc, ◌+◌, ◌-◌, ◌*◌, ◌/◌, ◌%◌, ◌^◌, ◌≤◌, ◌<◌, ◌≡◌, ◌∙◌, ap, ◌&&◌, true, false, arith, ltb,
  leb, if◌then◌else◌, Bool-cases, inl, inr, ◌⊎◌,
}
use native.Mathlib.Nat.{pow-succ', div-div-eq-div-mul}
use page_fault_os_for_risc_v.Kernel.{Memory}

unfoldable pub get_byte : Memory → ℕ → ℕ
get_byte m a = m (a / 8 * 8) / 256 ^ (a % 8) % 256

-- The number with the `n` digits b 0, b 1, ... to the base 256.
unfoldable pub assemble : (n : ℕ) → (ℕ → ℕ) → ℕ
assemble zero b = 0
assemble (suc n) b = b 0 % 256 + 256 * assemble n (λ i. b (i + 1))

-- The byte at `a` after `n` bytes from `f` were written from `d` on.
abbrev pub moved : Memory → (d n : ℕ) → (ℕ → ℕ) → ℕ → ℕ
moved m d n f a = if leb d a && ltb a (d + n) then f (a - d) else get_byte m a

-- memmove(d, src, n), the bytes of `src` being f 0, f 1, ...: the words that meet the target change.
unfoldable pub put_bytes : Memory → (d n : ℕ) → (ℕ → ℕ) → Memory
put_bytes m d n f a =
    if ltb d (a + 8) && ltb a (d + n) then assemble 8 (λ i. moved m d n f (a + i)) else m a

assemble-digit : (n i : ℕ) (b : ℕ → ℕ) → i < n → assemble n b / 256 ^ i % 256 ≡ b i % 256
unfolding assemble
assemble-digit zero i b lt = absurd (omega arith)
assemble-digit (suc n) zero b lt = omega arith
assemble-digit (suc n) (suc i) b lt =
    let low : assemble (suc n) b / 256 ≡ assemble n (λ i. b (i + 1)) = omega arith in
    rw (pow-succ' 256 i, ← div-div-eq-div-mul (assemble (suc n) b) 256 (256 ^ i), low)
      (assemble-digit n i (λ i. b (i + 1)) (omega arith) ∙ ap (λ j. b j % 256) (omega arith))

-- Each of the `n` bytes from `d` on is the one that was written, and the others are as before.
pub get_byte-put_bytes :
    (m : Memory) (d n : ℕ) (f : ℕ → ℕ) (a : ℕ)
    → get_byte (put_bytes m d n f) a ≡ moved m d n f a % 256
unfolding get_byte put_bytes
get_byte-put_bytes m d n f a =
    elim (Bool-cases (ltb d (a / 8 * 8 + 8) && ltb (a / 8 * 8) (d + n))) [
      | inl meets ↦ rw meets (
          assemble-digit 8 (a % 8) (λ i. moved m d n f (a / 8 * 8 + i)) (omega arith)
          ∙ ap (λ x. moved m d n f x % 256) (omega arith))
      | inr apart ↦
          let out : (leb d a && ltb a (d + n)) ≡ false = ground arith in
          rw (apart, out) (omega arith)
    ]

-- A word none of whose bytes is written does not change.
pub put_bytes-other :
    (m : Memory) (d n : ℕ) (f : ℕ → ℕ) (a : ℕ)
    → (a + 8 ≤ d) ⊎ (d + n ≤ a)
    → put_bytes m d n f a ≡ m a
unfolding put_bytes
put_bytes-other m d n f a out = ground arith

get_byte-small : (m : Memory) (a : ℕ) → get_byte m a % 256 ≡ get_byte m a
unfolding get_byte
get_byte-small m a = omega arith

-- Bytes that are moved arrive in their order.
pub get_byte-moved :
    (m : Memory) (d s n i : ℕ)
    → i < n
    → get_byte (put_bytes m d n (λ j. get_byte m (s + j))) (d + i) ≡ get_byte m (s + i)
get_byte-moved m d s n i lt =
    let inside : (leb d (d + i) && ltb (d + i) (d + n)) ≡ true = ground arith in
    let e : d + i - d ≡ i = omega arith in
    get_byte-put_bytes m d n (λ j. get_byte m (s + j)) (d + i)
    ∙ rw (inside, e) (get_byte-small m (s + i))
