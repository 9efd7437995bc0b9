-- ===== src/Fs/Fat/Names/Roundtrip.antt =====
-- What tf_create_lfn_entry() of kern/fs/fat32.cpp stores, copylfn() copies out.
use page_fault_os_for_risc_v.Prelude.{
  ap, ◌∙◌, ℕ, zero, suc, ◌+◌, ◌-◌, ◌<◌, ◌≤◌, ◌≡◌, ◌≢◌, Bool, ◌==◌, ◌||◌, ◌&&◌, if◌then◌else◌, true,
  false, ltb, leb, none, some, arith, refl, Bool-cases, inl, inr,
}
use page_fault_os_for_risc_v.Libs.CString.{Bytes}
use page_fault_os_for_risc_v.Fs.Fat.Names.{
  Wide, LfnEntry, unused, fill, tf_create_lfn_entry, used_from, put_name, name_start, copylfn,
}

-- A name of `n` bytes at `q`, its NUL included.
pub record IsName (m : Bytes) (q n : ℕ) : Type 0 where
  pub positive : 1 ≤ n
  pub ends : (j : ℕ) → j + 1 ≡ n → m (q + j) ≡ 0
  pub goes_on : (j : ℕ) → j + 1 < n → m (q + j) ≢ 0
  pub bytes : (a : ℕ) → m a < 256

-- The character in place `g` of the name, or the mark of an unused place.
abbrev pub char_at : Bytes → (q n g : ℕ) → ℕ
char_at m q n g = if ltb g n then m (q + g) else unused

module _ (m : Bytes) (q n : ℕ) (v : IsName m q n) where
  done_next : (g : ℕ) → (leb n g || m (q + g) == 0) ≡ leb n (g + 1)
  done_next g = ground (arith, v.goes_on g, v.ends g)

  first_round :
      (r i g p : ℕ) (d : Bool) (name : Wide)
      → p ≡ q + g
      → d ≡ leb n g
      → (j : ℕ)
      → (if leb (i + 1) j && ltb j (i + 1 + r)
          then char_at m q n (g + 1 + (j - (i + 1)))
          else (if j == i then if d then unused else m p else name j))
        ≡ (if leb i j && ltb j (i + suc r) then char_at m q n (g + (j - i)) else name j)
  first_round r i g p d name a b j = elim (Bool-cases (ltb i j)) [
    | inl l ↦ let e : g + 1 + (j - (i + 1)) ≡ g + (j - i) = ground arith in rw e (ground arith)
    | inr l ↦ elim (Bool-cases (j == i)) [
      | inl s ↦ let e : g + (j - i) ≡ g = ground arith in rw (e, a, b) (ground arith)
      | inr s ↦ ground arith
    ]
  ]

  -- One loop, from place `g` of the name on.
  fill_lem :
      (rounds i g p : ℕ) (d : Bool) (name : Wide)
      → p ≡ q + g
      → d ≡ leb n g
      → ((fill rounds i m p d name).filename ≡ q + (g + rounds))
        × ((fill rounds i m p d name).is_done ≡ leb n (g + rounds))
        × ((j : ℕ)
            → (fill rounds i m p d name).name j
              ≡ (if leb i j && ltb j (i + rounds) then char_at m q n (g + (j - i)) else name j))
  unfolding fill
  fill_lem zero i g p d name a b = (omega arith, ground arith, λ j. ground arith)
  fill_lem (suc r) i g p d name a b =
      let (x, y, z) =
        fill_lem r (i + 1) (g + 1) (p + 1) (d || m p == 0)
          (λ j. if j == i then (if d then unused else m p) else name j) (omega arith)
          (rw (a, b) (done_next g)) in
      (omega (arith, x), y ∙ ap (leb n) (omega arith), λ j. z j ∙ first_round r i g p d name a b j)

  -- The number of used places of an array that holds the name from place `g` on.
  used_lem :
      (rounds i g : ℕ) (name : Wide)
      → ((j : ℕ) → i ≤ j → j < i + rounds → name j ≡ char_at m q n (g + (j - i)))
      → used_from rounds i name ≡ (if leb (g + rounds) n then i + rounds else i + (n - g))
  unfolding used_from
  used_lem zero i g name h = ground arith
  used_lem (suc r) i g name h =
      let e : g + (i - i) ≡ g = omega arith in
      let here : name i ≡ char_at m q n g = rw (← e) (h i (omega arith) (omega arith)) in
      let ih : used_from r (i + 1) name
          ≡ (if leb (g + 1 + r) n then i + 1 + r else i + 1 + (n - (g + 1))) =
        used_lem r (i + 1) (g + 1) name
          (λ j a b. h j (omega arith) (omega arith) ∙ ap (char_at m q n) (omega arith)) in
      ground (arith, here, ih, v.bytes (q + g))

  -- One of the three arrays, which starts at place `g` of the name.
  array_lem :
      (rounds g p : ℕ) (d : Bool) (name : Wide)
      → p ≡ q + g
      → d ≡ leb n g
      → ((fill rounds 0 m p d name).filename ≡ q + (g + rounds))
        × ((fill rounds 0 m p d name).is_done ≡ leb n (g + rounds))
        × ((j : ℕ) → j < rounds → (fill rounds 0 m p d name).name j ≡ char_at m q n (g + j))
  array_lem r g p d name a b =
      let (x, y, z) = fill_lem r 0 g p d name a b in
      (
        x,
        y,
        λ j h.
            let w : (leb 0 j && ltb j (0 + r)) ≡ true = ground arith in
            z j ∙ rw w (ap (char_at m q n) (omega arith)),
      )

  array-used :
      (rounds g : ℕ) (name : Wide)
      → ((j : ℕ) → j < rounds → name j ≡ char_at m q n (g + j))
      → used_from rounds 0 name ≡ (if leb (g + rounds) n then rounds else n - g)
  array-used r g name h =
      used_lem r 0 g name (λ j a b. h j (omega arith) ∙ ap (char_at m q n) (omega arith))
      ∙ ground arith

  -- What copylfn() writes for one of the arrays, in a buffer for the name at `s`.
  part_lem :
      (rounds g : ℕ) (name : Wide)
      → ((j : ℕ) → j < rounds → name j ≡ char_at m q n (g + j))
      → (t : Bytes) (s u x : ℕ) → u ≡ (if leb (g + rounds) n then rounds else n - g)
      → put_name t (s + g) u name x
        ≡ (if leb (s + g) x && ltb x (s + g + u) then m (q + (x - s)) else t x)
  part_lem r g name h t s u x e = elim (Bool-cases (leb (s + g) x && ltb x (s + g + u))) [
    | inl y ↦
        let k : g + (x - (s + g)) ≡ x - s = ground arith in
        let c : name (x - (s + g)) ≡ char_at m q n (x - s) =
          h (x - (s + g)) (ground arith) ∙ ap (char_at m q n) k in
        rw y (ground (arith, c, v.bytes (q + (x - s))))
    | inr z ↦ rw z refl
  ]

  -- An array with nothing to write may stand anywhere.
  part_at :
      (rounds g : ℕ) (name : Wide)
      → ((j : ℕ) → j < rounds → name j ≡ char_at m q n (g + j))
      → (t : Bytes) (s d u x : ℕ) → u ≡ (if leb (g + rounds) n then rounds else n - g)
      → (u ≢ 0 → d ≡ s + g)
      → put_name t d u name x
        ≡ (if leb (s + g) x && ltb x (s + g + u) then m (q + (x - s)) else t x)
  part_at r g name h t s d u x e at = elim (Bool-cases (u == 0)) [
    | inl z ↦
        let w : (leb (s + g) x && ltb x (s + g + u)) ≡ false = ground arith in
        let w' : (leb d x && ltb x (d + u)) ≡ false = ground arith in rw (w, w') refl
    | inr z ↦ let k : d ≡ s + g = at (ground arith) in rw k (part_lem r g name h t s u x e)
  ]

module _ (m : Bytes) (q n : ℕ) (v : IsName m q n) (e : LfnEntry) where
  abbrev pub entry : LfnEntry
  entry = (tf_create_lfn_entry m q e).0

  -- The three arrays of the entry, and the rest of the name.
  entry_lem :
      ((j : ℕ) → j < 5 → entry.name1 j ≡ char_at m q n (0 + j))
      × ((j : ℕ) → j < 6 → entry.name2 j ≡ char_at m q n (5 + j))
      × ((j : ℕ) → j < 2 → entry.name3 j ≡ char_at m q n (11 + j))
      × ((tf_create_lfn_entry m q e).1 ≡ (if leb n 14 then none else some (q + 13)))
  unfolding tf_create_lfn_entry
  entry_lem =
      let a = fill 5 0 m q false e.name1 in
      let (p1, d1, l1) =
        array_lem m q n v 5 0 q false e.name1 (omega arith) (ground (arith, v.positive)) in
      let b = fill 6 0 m a.filename a.is_done e.name2 in
      let (p2, d2, l2) = array_lem m q n v 6 5 a.filename a.is_done e.name2 p1 d1 in
      let (p3, d3, l3) = array_lem m q n v 2 11 b.filename b.is_done e.name3 p2 d2 in
      (l1, l2, l3, rw (d3, p3) (ground (arith, v.ends 13, v.goes_on 13)))

  abbrev pub shown : ℕ
  shown = if leb 13 n then 13 else n

  -- tf_create_lfn_entry() on a name of one character or more stores its first 13 bytes, the NUL
  -- included if it is among them, and copylfn() writes these bytes, and no other, at the place of
  -- the entry in the buffer, and returns their number. The rest of the name is handed back exactly
  -- when the name has more than 13 characters.
  pub copylfn-tf_create_lfn_entry :
      (t : Bytes) (dst : ℕ)
      → ((copylfn t entry dst).0 ≡ shown)
        × ((x : ℕ)
            → (copylfn t entry dst).1 x ≡ (
                if leb (name_start dst entry) x && ltb x (name_start dst entry + shown)
                then m (q + (x - name_start dst entry))
                else t x))
        × ((tf_create_lfn_entry m q e).1 ≡ (if leb n 14 then none else some (q + 13)))
  unfolding copylfn
  copylfn-tf_create_lfn_entry t dst =
      let (l1, l2, l3, r) = entry_lem in
      let u1 = array-used m q n v 5 0 entry.name1 l1 in
      let u2 = array-used m q n v 6 5 entry.name2 l2 in
      let u3 = array-used m q n v 2 11 entry.name3 l3 in
      (
        ground (arith, u1, u2, u3),
        λ x.
            let s = name_start dst entry in
            let a = used_from 5 0 entry.name1 in
            let b = used_from 6 0 entry.name2 in
            let c = used_from 2 0 entry.name3 in
            let t1 = put_name t s a entry.name1 in
            let t2 = put_name t1 (s + a) b entry.name2 in
            let e1 = part_at m q n v 5 0 entry.name1 l1 t s s a x u1 (λ _. omega arith) in
            let e2 =
              part_at m q n v 6 5 entry.name2 l2 t1 s (s + a) b x u2
                (λ z. ground (arith, u1, u2)) in
            let e3 =
              part_at m q n v 2 11 entry.name3 l3 t2 s (s + (a + b)) c x u3
                (λ z. ground (arith, u1, u2, u3)) in
            e3 ∙ ground (arith, e1, e2, u1, u2, u3),
        r,
      )
