-- ===== src/Libs/CString/Search.antt =====
-- strlen(), strchr() and strrchr() on a string that ends within the fuel.
use page_fault_os_for_risc_v.Prelude.{
  ℕ, zero, suc, ◌+◌, ◌-◌, ◌≤◌, ◌<◌, ◌≡◌, ◌≢◌, ◌∙◌, ap, false, arith, some, ltb, ◌==◌, if◌then◌else◌,
  Bool-cases, inl, inr, ==_iff,
}
use page_fault_os_for_risc_v.Libs.CString.{
  Bytes, strlen_from, strlen, strrchr_from, strrchr, strchr,
}

-- A string of `l` characters at `s`, with its NUL.
pub record IsString (m : Bytes) (s l : ℕ) : Type 0 where
  pub filled : (i : ℕ) → i < l → m (s + i) ≢ 0
  pub ended : m (s + l) ≡ 0

strlen_from_lem :
    (f : ℕ) (m : Bytes) (s n l : ℕ)
    → IsString m s l
    → n ≤ l
    → l < n + f
    → strlen_from f m s n ≡ some l
unfolding strlen_from
strlen_from_lem zero m s n l x le fu = absurd (omega arith)
strlen_from_lem (suc f) m s n l x le fu = elim (Bool-cases (ltb n l)) [
  | inl lt ↦ ground (arith, x.filled n, strlen_from_lem f m s (n + 1) l x)
  | inr ge ↦ let e : n ≡ l = ground arith in rw (e, x.ended)
]

-- strlen() finds the length of a string, given one round more than that.
pub strlen_lem : (f : ℕ) (m : Bytes) (s l : ℕ) → IsString m s l → l < f → strlen f m s ≡ some l
unfolding strlen
strlen_lem f m s l x fu = strlen_from_lem f m s 0 l x (omega arith) (omega arith)

IsString-suc : (m : Bytes) (s l : ℕ) → IsString m s (suc l) → IsString m (s + 1) l
IsString-suc m s l x = record {
  filled = λ i lt e. x.filled (suc i) (omega arith) (ap m (omega arith) ∙ e);
  ended = ap m (omega arith) ∙ x.ended;
}

head_zero : (m : Bytes) (s : ℕ) → IsString m s 0 → m s ≡ 0
head_zero m s x = ap m (omega arith) ∙ x.ended

head_filled : (m : Bytes) (s l : ℕ) → IsString m s (suc l) → (m s == 0) ≡ false
head_filled m s l x =
    let ne : m s ≢ 0 = λ e. x.filled 0 (omega arith) (ap m (omega arith) ∙ e) in ground arith

-- No character of the string is `c` before the place `i`.
abbrev pub NotBefore : Bytes → ℕ → ℕ → ℕ → Type 0
NotBefore m s c i = (j : ℕ) → j < i → m (s + j) ≢ c

NotBefore-suc : (m : Bytes) (s c i : ℕ) → NotBefore m s c (suc i) → NotBefore m (s + 1) c i
NotBefore-suc m s c i h j lt e = h (suc j) (omega arith) (ap m (omega arith) ∙ e)

other : (m : Bytes) (s c i : ℕ) → NotBefore m s c (suc i) → (m s == c) ≡ false
other m s c i h = let ne : m s ≢ c = λ e. h 0 (omega arith) (ap m (omega arith) ∙ e) in ground arith

-- strchr() returns the address of the first character that is `c`.
pub strchr_found :
    (f : ℕ) (m : Bytes) (s c l i : ℕ)
    → IsString m s l
    → l < f
    → i < l
    → m (s + i) ≡ c
    → NotBefore m s c i
    → strchr f m s c ≡ some (s + i)
unfolding strchr
strchr_found zero m s c l i x fu lt e nb = absurd (omega arith)
strchr_found (suc f) m s c zero i x fu lt e nb = absurd (omega arith)
strchr_found (suc f) m s c (suc l) zero x fu lt e nb =
    let e' : m s ≡ c = ap m (omega arith) ∙ e in
    rw (head_filled m s l x, (==_iff (m s) c).1 e') (ap some (omega arith))
strchr_found (suc f) m s c (suc l) (suc i) x fu lt e nb =
    rw (head_filled m s l x, other m s c i nb)
      (strchr_found f m (s + 1) c l i (IsString-suc m s l x) (omega arith) (omega arith)
          (ap m (omega arith) ∙ e) (NotBefore-suc m s c i nb)
        ∙ ap some (omega arith))

-- strchr() returns the null pointer if no character is `c`.
pub strchr_missing :
    (f : ℕ) (m : Bytes) (s c l : ℕ)
    → IsString m s l
    → l < f
    → NotBefore m s c l
    → strchr f m s c ≡ some 0
unfolding strchr
strchr_missing zero m s c l x fu nb = absurd (omega arith)
strchr_missing (suc f) m s c zero x fu nb = rw (head_zero m s x)
strchr_missing (suc f) m s c (suc l) x fu nb =
    rw (head_filled m s l x, other m s c l nb)
      (strchr_missing f m (s + 1) c l (IsString-suc m s l x) (omega arith)
        (NotBefore-suc m s c l nb))

strrchr_from_missing :
    (f : ℕ) (m : Bytes) (s c ans l : ℕ)
    → IsString m s l
    → l < f
    → NotBefore m s c l
    → strrchr_from f m s c ans ≡ some ans
unfolding strrchr_from
strrchr_from_missing zero m s c ans l x fu nb = absurd (omega arith)
strrchr_from_missing (suc f) m s c ans zero x fu nb = rw (head_zero m s x)
strrchr_from_missing (suc f) m s c ans (suc l) x fu nb =
    rw (head_filled m s l x, other m s c l nb)
      (strrchr_from_missing f m (s + 1) c ans l (IsString-suc m s l x) (omega arith)
        (NotBefore-suc m s c l nb))

strrchr_from_found :
    (f : ℕ) (m : Bytes) (s c ans l i : ℕ)
    → IsString m s l
    → l < f
    → i < l
    → m (s + i) ≡ c
    → NotBefore m (s + i + 1) c (l - i - 1)
    → strrchr_from f m s c ans ≡ some (s + i)
unfolding strrchr_from
strrchr_from_found zero m s c ans l i x fu lt e nb = absurd (omega arith)
strrchr_from_found (suc f) m s c ans zero i x fu lt e nb = absurd (omega arith)
strrchr_from_found (suc f) m s c ans (suc l) zero x fu lt e nb =
    let e' : m s ≡ c = ap m (omega arith) ∙ e in
    let nb' : NotBefore m (s + 1) c l =
      λ j lt' e''. nb j (omega arith) (ap m (omega arith) ∙ e'') in
    rw (head_filled m s l x, (==_iff (m s) c).1 e')
      (strrchr_from_missing f m (s + 1) c s l (IsString-suc m s l x) (omega arith) nb'
        ∙ ap some (omega arith))
strrchr_from_found (suc f) m s c ans (suc l) (suc i) x fu lt e nb = rw (head_filled m s l x) (
    strrchr_from_found f m (s + 1) c (if m s == c then s else ans) l i (IsString-suc m s l x)
      (omega arith) (omega arith) (ap m (omega arith) ∙ e)
      (λ j lt' e'. nb j (omega arith) (ap m (omega arith) ∙ e'))
    ∙ ap some (omega arith))

-- strrchr() returns the address of the last character that is `c`.
pub strrchr_found :
    (f : ℕ) (m : Bytes) (s c l i : ℕ)
    → IsString m s l
    → l < f
    → i < l
    → m (s + i) ≡ c
    → NotBefore m (s + i + 1) c (l - i - 1)
    → strrchr f m s c ≡ some (s + i)
unfolding strrchr
strrchr_found f m s c l i x fu lt e nb = strrchr_from_found f m s c 0 l i x fu lt e nb

-- strrchr() returns the null pointer if no character is `c`.
pub strrchr_missing :
    (f : ℕ) (m : Bytes) (s c l : ℕ)
    → IsString m s l
    → l < f
    → NotBefore m s c l
    → strrchr f m s c ≡ some 0
unfolding strrchr
strrchr_missing f m s c l x fu nb = strrchr_from_missing f m s c 0 l x fu nb
