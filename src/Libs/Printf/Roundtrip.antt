-- ===== src/Libs/Printf/Roundtrip.antt =====
-- Reading back what printint() and printptr() print.
use page_fault_os_for_risc_v.Prelude.{
  ap, ℕ, zero, suc, List, [], ◌∷◌, true, false, some, ◌≡◌, ◌<◌, ◌≤◌, ◌*◌, ◌+◌, ◌-◌, ◌/◌, ◌%◌, ◌^◌,
  refl, arith, inl, inr, if◌then◌else◌, leb, ltb, Bool-cases, ◌==◌, ◌&&◌, Bool, eq→==, sym, ◌∙◌,
}
use page_fault_os_for_risc_v.Libs.Printf.{
  Bool, suc, ◌∷◌, List, digit, Buffer, put_char, put_digits, backwards, put_sign, is_negative,
  magnitude, buffer_size, printint, ptr_digits, printptr,
}
use native.Mathlib.Nat.{mul-le-mul, div-add-mod', mod-lt}

-- The value of a digit, and of the digits of a number, the highest first.
unfoldable pub digit_value : ℕ → ℕ
digit_value c = if leb c b'9' then c - b'0' else c - b'a' + 10

unfoldable pub read_digits : (base value : ℕ) → List ℕ → ℕ
read_digits base v [] = v
read_digits base v (c ∷ cs) = read_digits base (v * base + digit_value c) cs

digit_value-digit : (d : ℕ) → d < 16 → digit_value (digit d) ≡ d
unfolding digit_value digit
digit_value-digit d h = ground arith

-- Places from `i` on do not matter for what is printed below them.
backwards-put_char :
    (i k c : ℕ) (buf : Buffer) → i ≤ k → backwards i (put_char k c buf) ≡ backwards i buf
unfolding backwards
backwards-put_char zero k c buf h = refl
backwards-put_char (suc i) k c buf h =
    let e : (i == k) ≡ false = ground arith in
    let r = backwards-put_char i k c buf (omega arith) in rw (e, r) refl

signed_digits : (j : ℕ) (b : Buffer) → backwards (suc j) (put_char j b'-' b) ≡ b'-' ∷ backwards j b
unfolding backwards
signed_digits j b =
    let r = backwards-put_char j j b'-' b (omega arith) in rw (eq→== j j refl, r) refl

-- A sign that has a place behind the digits is printed before them.
signed :
    (s : Bool) (j : ℕ) (b : Buffer)
    → ltb j buffer_size ≡ true
    → put_sign s (some (j, b)) ≡ some (if s then b'-' ∷ backwards j b else backwards j b)
unfolding put_sign
signed false j b h = refl
signed true j b h = rw (h, signed_digits j b) refl

module _ (base : ℕ) (low : 5 ≤ base) (high : base ≤ 16) where
  quotient_lt : (x m : ℕ) → x < 5 * m → x / base < m
  quotient_lt x m h = elim (Bool-cases (ltb (x / base) m)) [
    | inl e ↦ ground arith
    | inr e ↦
        let k : m ≤ x / base = ground arith in
        let g : m * 5 ≤ x / base * base = mul-le-mul k low in
        absurd (omega (arith, div-add-mod' x base))
  ]

  read_step :
      (i x : ℕ) (buf : Buffer)
      → read_digits base (x / base) (backwards (suc i) (put_char i (digit (x % base)) buf))
        ≡ read_digits base x (backwards i buf)
  unfolding read_digits backwards
  read_step i x buf =
      let r : x % base < base = mod-lt x (omega arith) in
      let d : digit_value (digit (x % base)) ≡ x % base =
        digit_value-digit (x % base) (omega arith) in
      rw
        (
          eq→== i i refl,
          d,
          div-add-mod' x base,
          backwards-put_char i i (digit (x % base)) buf (omega arith),
        )
        refl

  abbrev filled : (i x : ℕ) → Buffer → Buffer
  filled i x buf = put_char i (digit (x % base)) buf

  last_digit :
      (n i x : ℕ) (buf : Buffer)
      → x / base ≡ 0
      → (put_digits (suc n) i base x buf ≡ some (suc i, filled i x buf))
        × (read_digits base 0 (backwards (suc i) (filled i x buf))
            ≡ read_digits base x (backwards i buf))
  unfolding put_digits
  last_digit n i x buf z =
      let e : (x / base == 0) ≡ true = eq→== (x / base) 0 z in
      (
        rw e refl,
        sym (ap (λ v. read_digits base v (backwards (suc i) (filled i x buf))) z)
            ∙ read_step i x buf,
      )

  more_digits :
      (n i x : ℕ) (buf : Buffer)
      → (x / base == 0) ≡ false
      → put_digits (suc n) i base x buf ≡ put_digits n (suc i) base (x / base) (filled i x buf)
  unfolding put_digits
  more_digits n i x buf e = rw e refl

  -- For a number below 5 to the power of `n` + 1, the loop ends within `n` + 1 places, with the digits of
  -- the number above what it had.
  put_digits_lem :
      (n k : ℕ)
      → n ≤ k
      → (i x : ℕ) (buf : Buffer) → x < 5 * 5 ^ n
      → (j : ℕ) × (b : Buffer) × (put_digits (suc k) i base x buf ≡ some (j, b))
        × (j ≤ i + suc n)
        × (read_digits base 0 (backwards j b) ≡ read_digits base x (backwards i buf))
  put_digits_lem zero k t i x buf h =
      let z : x / base < 1 = quotient_lt x 1 (omega arith) in
      let (e, r) = last_digit k i x buf (omega arith) in (suc i, filled i x buf, e, omega arith, r)
  put_digits_lem (suc n) zero t i x buf h = absurd (omega arith)
  put_digits_lem (suc n) (suc k) t i x buf h = elim (Bool-cases (x / base == 0)) [
    | inl e ↦
        let (g, r) = last_digit (suc k) i x buf (ground arith) in
        (suc i, filled i x buf, g, omega arith, r)
    | inr e ↦
        let q : 5 ^ suc n ≡ 5 * 5 ^ n = omega arith in
        let z : x / base < 5 * 5 ^ n = quotient_lt x (5 * 5 ^ n) (omega arith) in
        let (j, b, g, l, r) =
          put_digits_lem n k (omega arith) (suc i) (x / base) (filled i x buf) z in
        (j, b, more_digits (suc k) i x buf e ∙ g, omega arith, r ∙ read_step i x buf)
  ]

  put_sign_lem :
      (s : Bool) (x : ℕ)
      → x < 5 * 5 ^ 13
      → (cs : List ℕ) × (put_sign s (put_digits buffer_size 0 base x (λ _. 0))
          ≡ some (if s then b'-' ∷ cs else cs))
        × (read_digits base 0 cs ≡ x)
  unfolding backwards read_digits
  put_sign_lem s x h =
      let (j, b, e, l, r) = put_digits_lem 13 15 (omega arith) 0 x (λ _. 0) h in
      let k : ltb j buffer_size ≡ true = ground arith in (backwards j b, rw e (signed s j b k), r)

  -- In a base of 5 to 16, printint() of a word of 32 bits stays within its buffer, and what it prints
  -- are the digits of the number, behind a minus sign and of the negated number if it is to be read as
  -- signed and negative.
  pub printint_lem :
      (num : ℕ) (sign : Bool)
      → num < 2 ^ 32
      → (cs : List ℕ) × (printint num base sign
          ≡ some (if sign && is_negative num then b'-' ∷ cs else cs))
        × (read_digits base 0 cs ≡ (if sign && is_negative num then 2 ^ 32 - num else num))
  unfolding printint
  printint_lem num sign h =
      let m : magnitude num sign < 5 * 5 ^ 13 = ground arith in
      let (cs, e, r) = put_sign_lem (sign && is_negative num) (magnitude num sign) m in
      let v : magnitude num sign ≡ (if sign && is_negative num then 2 ^ 32 - num else num) =
        ground arith in
      (cs, e, r ∙ v)

scale : (rounds value : ℕ) → ℕ
scale zero v = v
scale (suc n) v = scale n (v * 16)

next_digit :
    (n v x : ℕ)
    → x < 2 ^ 64
    → read_digits 16 v (ptr_digits (suc n) x)
      ≡ read_digits 16 (v * 16 + x / 2 ^ 60) (ptr_digits n (x * 16 % 2 ^ 64))
unfolding read_digits ptr_digits
next_digit n v x h =
    ap (λ d. read_digits 16 (v * 16 + d) (ptr_digits n (x * 16 % 2 ^ 64)))
      (digit_value-digit (x / 2 ^ 60) (omega arith))

-- What is read after `n` digits, with what is left of `x`, is `x` behind what was read before, `n` digits
-- up.
ptr_digits_lem :
    (n v x : ℕ)
    → x < 2 ^ 64
    → (y : ℕ) × (y < 2 ^ 64)
      × (read_digits 16 v (ptr_digits n x) * 2 ^ 64 + y ≡ scale n (v * 2 ^ 64 + x))
unfolding read_digits ptr_digits scale
ptr_digits_lem zero v x h = (x, h, refl)
ptr_digits_lem (suc n) v x h =
    let w : ℕ = v * 16 + x / 2 ^ 60 in
    let (y, l, e) = ptr_digits_lem n w (x * 16 % 2 ^ 64) (omega arith) in
    let q : w * 2 ^ 64 + x * 16 % 2 ^ 64 ≡ (v * 2 ^ 64 + x) * 16 = omega arith in
    (y, l, ap (λ r. r * 2 ^ 64 + y) (next_digit n v x h) ∙ e ∙ ap (scale n) q)

-- printptr() of a word of 64 bits prints "0x" and the digits of the word in base 16.
pub printptr_lem :
    (x : ℕ)
    → x < 2 ^ 64
    → (cs : List ℕ) × (printptr x ≡ b'0' ∷ b'x' ∷ cs) × (read_digits 16 0 cs ≡ x)
unfolding printptr scale
printptr_lem x h = let (y, l, e) = ptr_digits_lem 16 0 x h in (ptr_digits 16 x, refl, omega arith)
