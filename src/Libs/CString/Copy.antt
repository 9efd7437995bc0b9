-- ===== src/Libs/CString/Copy.antt =====
-- What strncpy() and safestrcpy() leave at each address, for a source and a target that lie apart.
use page_fault_os_for_risc_v.Prelude.{
  ℕ, zero, suc, ◌+◌, ◌-◌, ◌≤◌, ◌<◌, ◌≡◌, ◌≢◌, ◌⊎◌, ◌∙◌, sym, ap, false, arith, ltb, ◌==◌,
  if◌then◌else◌, Bool-cases, inl, inr,
}
use page_fault_os_for_risc_v.Libs.CString.{Bytes, write, pad, strncpy, safestrcpy_loop, safestrcpy}
use page_fault_os_for_risc_v.Libs.CString.Move.{within}

-- The runs of `n` bytes from `s` and from `t` on do not meet.
abbrev pub Apart : ℕ → ℕ → ℕ → Type 0
Apart s t n = (s + n ≤ t) ⊎ (t + n ≤ s)

-- As far as the first `n` characters show, the string at `t` has length `l`.
pub record StringIn (m : Bytes) (t n l : ℕ) : Type 0 where
  pub filled : (i : ℕ) → i < l → i < n → m (t + i) ≢ 0
  pub ended : l < n → m (t + l) ≡ 0

-- A write outside the source is not seen in it.
seen :
    (m : Bytes) (s t n v i : ℕ)
    → Apart s t (suc n)
    → i < n
    → write m s v (t + 1 + i) ≡ m (t + suc i)
unfolding write
seen m s t n v i apart lt = let e : t + 1 + i ≡ t + suc i = omega arith in rw e (ground arith)

-- One step along a string, after a write outside it.
StringIn-write :
    (m : Bytes) (s t n l v : ℕ)
    → Apart s t (suc n)
    → StringIn m t (suc n) (suc l)
    → StringIn (write m s v) (t + 1) n l
StringIn-write m s t n l v apart x = record {
  filled =
      λ i a b e. x.filled (suc i) (omega arith) (omega arith) (sym (seen m s t n v i apart b) ∙ e);
  ended = λ lt. seen m s t n v l apart lt ∙ x.ended (omega arith);
}

pad_lem : (n : ℕ) (m : Bytes) (s a : ℕ) → pad n m s a ≡ (if within s n a then 0 else m a)
unfolding pad write
pad_lem zero m s a = ground arith
pad_lem (suc n) m s a = pad_lem n (write m s 0) (s + 1) a ∙ ground arith

here : (m : Bytes) (t n : ℕ) → StringIn m t (suc n) 0 → m t ≡ 0
here m t n x = ap m (omega arith) ∙ x.ended (omega arith)

filled : (m : Bytes) (t n l : ℕ) → StringIn m t (suc n) (suc l) → (m t == 0) ≡ false
filled m t n l x =
    let e : t + 0 ≡ t = omega arith in
    let ne : m t ≢ 0 = rw e at (x.filled 0 (omega arith) (omega arith)) in ground arith

-- strncpy() copies the string and pads with NULs up to `n`, and changes nothing else.
pub strncpy_lem :
    (m : Bytes) (s t n l a : ℕ)
    → Apart s t n
    → StringIn m t n l
    → strncpy m s t n a
      ≡ (if within s n a then (if ltb (a - s) l then m (t + (a - s)) else 0) else m a)
unfolding strncpy write
strncpy_lem m s t zero l a apart x = ground arith
strncpy_lem m s t (suc n) zero a apart x =
    rw (here m t n x) (pad_lem n (write m s 0) (s + 1) a ∙ ground arith)
strncpy_lem m s t (suc n) (suc l) a apart x = rw (filled m t n l x) (
    strncpy_lem (write m s (m t)) (s + 1) (t + 1) n l a (omega arith)
      (StringIn-write m s t n l (m t) apart x)
    ∙ elim (Bool-cases (within (s + 1) n a)) [
      | inl i ↦
          rw (i, seen m s t n (m t) (a - (s + 1)) apart (ground arith))
            (let e : suc (a - (s + 1)) ≡ a - s = ground arith in rw e (ground arith))
      | inr o ↦ rw o (elim (Bool-cases (s == a)) [
        | inl e ↦ let e' : t + (a - s) ≡ t = ground arith in rw e' (ground arith)
        | inr ne ↦ ground arith
      ])
    ])

-- How many characters safestrcpy() copies in `k` rounds.
abbrev pub cut : ℕ → ℕ → ℕ
cut l k = if ltb l k then l else k

safestrcpy_loop_lem :
    (k : ℕ) (m : Bytes) (s t l a : ℕ)
    → Apart s t (suc k)
    → StringIn m t k l
    → safestrcpy_loop k m s t a ≡ (
        if within s (cut l k) a
        then m (t + (a - s))
        else if within (s + cut l k) (if ltb l k then 2 else 1) a
        then 0
        else m a)
unfolding safestrcpy_loop write
safestrcpy_loop_lem zero m s t l a apart x = ground arith
safestrcpy_loop_lem (suc k) m s t zero a apart x = rw (here m t k x) (ground arith)
safestrcpy_loop_lem (suc k) m s t (suc l) a apart x = rw (filled m t k l x) (
    safestrcpy_loop_lem k (write m s (m t)) (s + 1) (t + 1) l a (omega arith)
      (StringIn-write m s t k l (m t) (omega arith) x)
    ∙ elim (Bool-cases (within (s + 1) (cut l k) a)) [
      | inl i ↦
          rw (i, seen m s t k (m t) (a - (s + 1)) (omega arith) (ground arith))
            (let e : suc (a - (s + 1)) ≡ a - s = ground arith in rw e (ground arith))
      | inr o ↦ rw o (elim (Bool-cases (s == a)) [
        | inl e ↦ let e' : t + (a - s) ≡ t = ground arith in rw e' (ground arith)
        | inr ne ↦ ground arith
      ])
    ])

-- safestrcpy() with room for `n` > 0 characters copies the string, cut to `n` - 1 of them, behind it
-- stands a NUL, and nothing outside the `n` characters changes.
pub safestrcpy_lem :
    (m : Bytes) (s t n l : ℕ)
    → Apart s t n
    → StringIn m t (n - 1) l
    → 0 < n
    → ((i : ℕ) → i < cut l (n - 1) → safestrcpy m s t n (s + i) ≡ m (t + i))
      × (safestrcpy m s t n (s + cut l (n - 1)) ≡ 0)
      × ((a : ℕ) → within s n a ≡ false → safestrcpy m s t n a ≡ m a)
unfolding safestrcpy
safestrcpy_lem m s t zero l apart x pos = absurd (omega arith)
safestrcpy_lem m s t (suc n) l apart x pos =
    let e : suc n - 1 ≡ n = omega arith in
    let x' : StringIn m t n l = rw e at x in
    rw e (
      λ i lt.
          safestrcpy_loop_lem n m s t l (s + i) apart x'
          ∙ (let e' : t + (s + i - s) ≡ t + i = omega arith in rw e' (ground arith)),
      safestrcpy_loop_lem n m s t l (s + cut l n) apart x' ∙ ground arith,
      λ a out. safestrcpy_loop_lem n m s t l a apart x' ∙ ground arith,
    )
