-- ===== src/Console/Editing.antt =====
-- The console's ring as the line that is typed.
use page_fault_os_for_risc_v.Prelude.{
  ℕ, zero, suc, ◌+◌, ◌-◌, ◌%◌, ◌^◌, ◌<◌, ◌≤◌, ◌≡◌, ◌∙◌, refl, ap, sym, false, List, [], ◌∷◌, ◌++◌,
  if◌then◌else◌, arith, ◌==◌, eq→==,
}
use page_fault_os_for_risc_v.Kernel.{Console}
use page_fault_os_for_risc_v.Proc.{set_at}
use page_fault_os_for_risc_v.Console.{
  input_buf, slot, erase, store, nothing_typed, is_erase, is_ignored,
}

-- How many characters wait.
abbrev pub typed_count : Console → ℕ
typed_count c = c.write_index - c.read_index

-- The `n` characters from index `r` on.
abbrev pub chars_from : (n r : ℕ) → (ℕ → ℕ) → List ℕ
chars_from zero r b = []
chars_from (suc n) r b = b (slot r) ∷ chars_from n (r + 1) b

-- The characters that wait, the oldest first.
abbrev pub typed : Console → List ℕ
typed c = chars_from (typed_count c) c.read_index c.buf

-- The indices are in order, at most the ring apart, and have not reached 2^31.
pub record IsConsole (c : Console) : Type 0 where
  pub ordered : c.read_index ≤ c.write_index
  pub fits : typed_count c ≤ input_buf
  pub small : c.write_index < 2 ^ 31

-- A line without its last character.
abbrev pub without_last : List ℕ → List ℕ
without_last [] = []
without_last (x ∷ []) = []
without_last (x ∷ y ∷ l) = x ∷ without_last (y ∷ l)

-- What a key does to the line.
abbrev pub edit : ℕ → List ℕ → List ℕ
edit ch l =
    if is_erase ch then without_last l else if is_ignored ch then l else l ++ (ch % 2 ^ 8 ∷ [])

chars_from-erase : (n r : ℕ) (b : ℕ → ℕ) → without_last (chars_from (suc n) r b) ≡ chars_from n r b
chars_from-erase zero r b = refl
chars_from-erase (suc n) r b = ap (λ l. b (slot r) ∷ l) (chars_from-erase n (r + 1) b)

slot-other :
    (r n : ℕ) → suc n < input_buf → r + suc n < 2 ^ 31 → (slot r == slot (r + suc n)) ≡ false
unfolding slot
slot-other r n lt small = ground arith

chars_from-store :
    (n r ch : ℕ) (b : ℕ → ℕ)
    → n < input_buf
    → r + n < 2 ^ 31
    → chars_from (suc n) r (set_at b (slot (r + n)) ch) ≡ chars_from n r b ++ (ch ∷ [])
chars_from-store zero r ch b lt small =
    let e : slot (r + 0) ≡ slot r = ap slot (omega arith) in
    rw (e, eq→== (slot r) (slot r) refl) refl
chars_from-store (suc n) r ch b lt small =
    let other : (slot r == slot (r + suc n)) ≡ false = slot-other r n lt small in
    let same : slot (r + 1 + n) ≡ slot (r + suc n) = ap slot (omega arith) in
    rw other (
      ap (λ l. b (slot r) ∷ l)
        (rw same at (chars_from-store n (r + 1) ch b (omega arith) (omega arith))))

pub typed-erase :
    (c : Console)
    → IsConsole c
    → nothing_typed c ≡ false
    → (typed (erase c) ≡ without_last (typed c)) × IsConsole (erase c)
unfolding erase
typed-erase c v ne =
    let o = v.ordered in
    let f = v.fits in
    let s = v.small in
    let step : typed_count c ≡ suc (typed_count (erase c)) = ground arith in
    let w : (c.write_index + 2 ^ 32 - 1) % 2 ^ 32 < c.write_index = ground arith in
    (
      sym (
          ap (λ n. without_last (chars_from n c.read_index c.buf)) step
          ∙ chars_from-erase (typed_count (erase c)) c.read_index c.buf),
      record { ordered = ground arith; fits = ground arith; small = ground arith },
    )

pub typed-store :
    (ch : ℕ) (c : Console)
    → IsConsole c
    → typed_count c < input_buf
    → c.write_index + 1 < 2 ^ 31
    → (typed (store ch c) ≡ typed c ++ (ch % 2 ^ 8 ∷ [])) × IsConsole (store ch c)
unfolding store
typed-store ch c v lt small =
    let o = v.ordered in
    let s = v.small in
    let step : typed_count (store ch c) ≡ suc (typed_count c) = omega arith in
    let place : slot c.write_index ≡ slot (c.read_index + typed_count c) = ap slot (omega arith) in
    (
      ap (λ n. chars_from n c.read_index (store ch c).buf) step
          ∙ rw place
              (chars_from-store (typed_count c) c.read_index (ch % 2 ^ 8) c.buf lt (omega arith)),
      record { ordered = omega arith; fits = omega arith; small = omega arith },
    )
