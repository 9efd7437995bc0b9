-- ===== src/Pipe/Queue.antt =====
-- The ring of a pipe as a queue of bytes.
use page_fault_os_for_risc_v.Prelude.{
  ℕ, zero, suc, ◌+◌, ◌-◌, ◌%◌, ◌^◌, ◌≤◌, ◌<◌, ◌≡◌, ◌∙◌, refl, ap, true, false, List, [], ◌∷◌, ◌++◌,
  arith, ◌==◌, eq→==, ◌↔◌,
}
use page_fault_os_for_risc_v.Kernel.{Pipe}
use page_fault_os_for_risc_v.Proc.{set_at}
use page_fault_os_for_risc_v.Pipe.{pipe_size, u32, is_empty, is_full, next_byte, pop, push}

-- How many bytes wait in the ring.
abbrev pub count : Pipe → ℕ
count p = u32 (p.nwrite + 2 ^ 32 - p.nread)

-- The `n` bytes of the ring from the counter `r` on.
abbrev pub bytes_from : (n r : ℕ) → (ℕ → ℕ) → List ℕ
bytes_from zero r b = []
bytes_from (suc n) r b = b (r % pipe_size) ∷ bytes_from n (u32 (r + 1)) b

-- The bytes that wait, the oldest first.
abbrev pub contents : Pipe → List ℕ
contents p = bytes_from (count p) p.nread p.buf

pub record IsPipe (p : Pipe) : Type 0 where
  pub fits : count p ≤ pipe_size
  pub reads : p.nread < 2 ^ 32
  pub writes : p.nwrite < 2 ^ 32

bytes_from-push :
    (n r c : ℕ) (b : ℕ → ℕ)
    → n < pipe_size
    → r < 2 ^ 32
    → bytes_from (suc n) r (set_at b ((r + n) % pipe_size) c) ≡ bytes_from n r b ++ (c ∷ [])
bytes_from-push zero r c b lt small =
    let e : (r + 0) % pipe_size ≡ r % pipe_size = omega arith in
    rw (e, eq→== (r % pipe_size) (r % pipe_size) refl) refl
bytes_from-push (suc n) r c b lt small =
    let other : (r % pipe_size == (r + suc n) % pipe_size) ≡ false = ground arith in
    let same : (u32 (r + 1) + n) % pipe_size ≡ (r + suc n) % pipe_size = omega arith in
    rw other (
      ap (λ l. b (r % pipe_size) ∷ l)
        (rw same at (bytes_from-push n (u32 (r + 1)) c b (omega arith) (omega arith))))

-- A pipe is empty exactly if nothing waits, and full exactly if PIPESIZE bytes do.
pub is_empty-contents :
    (p : Pipe)
    → IsPipe p
    → ((is_empty p ≡ true) ↔ (count p ≡ 0)) × ((is_full p ≡ true) ↔ (count p ≡ pipe_size))
is_empty-contents p v =
    ((λ e. ground arith, λ e. ground arith), (λ e. ground arith, λ e. ground arith))

-- Taking a byte from a pipe that is not empty takes the oldest one, and leaves the others in order.
pub pop-contents :
    (p : Pipe)
    → IsPipe p
    → is_empty p ≡ false
    → (contents p ≡ next_byte p ∷ contents (pop p)) × IsPipe (pop p)
unfolding pop
pop-contents p v ne =
    let f = v.fits in
    let r = v.reads in
    let w = v.writes in
    let step : count p ≡ suc (count (pop p)) = ground arith in
    (
      ap (λ n. bytes_from n p.nread p.buf) step,
      record { fits = ground arith; reads = omega arith; writes = w },
    )

-- Putting a byte into a pipe that is not full puts it behind the others.
pub push-contents :
    (p : Pipe) (c : ℕ)
    → IsPipe p
    → is_full p ≡ false
    → (contents (push c p) ≡ contents p ++ (c ∷ [])) × IsPipe (push c p)
unfolding push
push-contents p c v nf =
    let f = v.fits in
    let r = v.reads in
    let w = v.writes in
    let step : count (push c p) ≡ suc (count p) = ground arith in
    let place : p.nwrite % pipe_size ≡ (p.nread + count p) % pipe_size = omega arith in
    (
      ap (λ n. bytes_from n p.nread (push c p).buf) step
          ∙ rw place (bytes_from-push (count p) p.nread c p.buf (ground arith) r),
      record { fits = ground arith; reads = r; writes = omega arith },
    )
