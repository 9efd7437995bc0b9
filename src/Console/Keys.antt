-- ===== src/Console/Keys.antt =====
-- What a key that is typed does, by consoleintr().
use page_fault_os_for_risc_v.Prelude.{
  ℕ, ◌+◌, ◌^◌, ◌<◌, ◌≡◌, ◌∙◌, refl, ap, false, true, [], if◌then◌else◌, arith, ◌==◌, Bool-cases,
  inl, inr, ltb,
}
use page_fault_os_for_risc_v.Kernel.{Console, Kernel, on_console}
use page_fault_os_for_risc_v.Kernel.Run.{ok}
use page_fault_os_for_risc_v.Proc.{nproc, woken}
use page_fault_os_for_risc_v.Proc.Wakeup.{wakeup_lem}
use page_fault_os_for_risc_v.Console.{
  input_buf, erase, store, nothing_typed, is_erase, is_ignored, new_line, set_console, consputc,
  consoleintr,
}
use page_fault_os_for_risc_v.Console.Editing.{
  chars_from, typed_count, typed, IsConsole, edit, typed-erase, typed-store,
}

no_wait : (c : Console) → IsConsole c → nothing_typed c ≡ true → typed c ≡ []
no_wait c v e =
    let z : typed_count c ≡ 0 = ground arith in ap (λ n. chars_from n c.read_index c.buf) z

-- What the firmware's output leaves as it is.
pub record Keeps (putchar : ℕ → Kernel → Kernel) : Type 0 where
  pub console : (ch : ℕ) (k : Kernel) → (putchar ch k).console ≡ k.console
  pub table : (ch : ℕ) (k : Kernel) → (putchar ch k).table ≡ k.table

module _ (putchar : ℕ → Kernel → Kernel) (keeps : Keeps putchar) (k : Kernel)
    (v : IsConsole k.console) where
  abbrev Typed : (ch : ℕ) → Kernel → Type 0
  Typed ch t =
      (typed t.console ≡ edit ch (typed k.console))
      × IsConsole t.console
      × ((j : ℕ)
          → j < nproc
          → t.table j ≡ (if ch == new_line then woken on_console (k.table j) else k.table j))

  abbrev erased : Kernel
  erased = putchar 7 (putchar 8 (putchar 32 (putchar 8 (set_console (erase k.console) k))))

  erased-console : erased.console ≡ erase k.console
  erased-console =
      keeps.console 7 _
      ∙ keeps.console 8 _
      ∙ keeps.console 32 _
      ∙ keeps.console 8 (set_console (erase k.console) k)

  erased-table : erased.table ≡ k.table
  erased-table =
      keeps.table 7 _
      ∙ keeps.table 8 _
      ∙ keeps.table 32 _
      ∙ keeps.table 8 (set_console (erase k.console) k)

  key_erases :
      (ch : ℕ)
      → is_erase ch ≡ true
      → (t : Kernel) × (consoleintr putchar ch k ≡ ok tt t) × Typed ch t
  unfolding consoleintr consputc
  key_erases ch e =
      let nl : (ch == new_line) ≡ false = ground arith in
      elim (Bool-cases (nothing_typed k.console)) [
        | inl n ↦ (k, rw (e, n) refl, (rw (e, no_wait k.console v n) refl, v, λ j h. rw nl refl))
        | inr y ↦
            let (l, w) = typed-erase k.console v y in
            (
              erased,
              rw (e, y) refl,
              (
                rw (e, erased-console) l,
                rw erased-console w,
                λ j h. rw nl (ap (λ f. f j) erased-table),
              ),
            )
      ]

  key_ignored :
      (ch : ℕ)
      → is_erase ch ≡ false
      → is_ignored ch ≡ true
      → (t : Kernel) × (consoleintr putchar ch k ≡ ok tt t) × Typed ch t
  unfolding consoleintr
  key_ignored ch e i =
      let nl : (ch == new_line) ≡ false = ground arith in
      (k, rw (e, i) refl, (rw (e, i) refl, v, λ j h. rw nl refl))

  abbrev stored : ℕ → Kernel
  stored ch = set_console (store ch (putchar ch k).console) (putchar ch k)

  key_stored :
      (ch : ℕ)
      → ch < 2 ^ 8
      → is_erase ch ≡ false
      → is_ignored ch ≡ false
      → typed_count k.console < input_buf
      → k.console.write_index + 1 < 2 ^ 31
      → (t : Kernel) × (consoleintr putchar ch k ≡ ok tt t) × Typed ch t
  unfolding consoleintr consputc
  key_stored ch b e i lt small =
      let big : (ch == 0x100) ≡ false = ground arith in
      let (l, w) = typed-store ch k.console v lt small in
      let c : (stored ch).console ≡ store ch k.console = ap (store ch) (keeps.console ch k) in
      elim (Bool-cases (ch == new_line)) [
        | inl n ↦ (
          record (stored ch) {
            table = λ j.
                if ltb j nproc then woken on_console ((stored ch).table j) else (stored ch).table j;
          },
          rw (e, i, big, n) (wakeup_lem on_console (stored ch)),
          (
            rw (e, i, c) l,
            rw c w,
            λ j h.
                let s : ltb j nproc ≡ true = ground arith in
                rw (n, s, ap (λ f. f j) (keeps.table ch k)) refl,
          ),
        )
        | inr n ↦ (
          stored ch,
          rw (e, i, big, n) refl,
          (rw (e, i, c) l, rw c w, λ j h. rw n (ap (λ f. f j) (keeps.table ch k))),
        )
      ]

  -- A key does to the line that is typed what `edit` says, if a place of the ring is free and the indices
  -- are below 2^31: backspace and DEL take the last character away, CTRL-P and return do nothing, and
  -- any other byte is put behind the line. A new line makes the processes runnable that wait for input.
  pub consoleintr_lem :
      (ch : ℕ)
      → ch < 2 ^ 8
      → typed_count k.console < input_buf
      → k.console.write_index + 1 < 2 ^ 31
      → (t : Kernel) × (consoleintr putchar ch k ≡ ok tt t) × Typed ch t
  consoleintr_lem ch b lt small = elim (Bool-cases (is_erase ch)) [
    | inl e ↦ key_erases ch e
    | inr e ↦ elim (Bool-cases (is_ignored ch)) [
      | inl i ↦ key_ignored ch e i
      | inr i ↦ key_stored ch b e i lt small
    ]
  ]
