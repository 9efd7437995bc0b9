-- ===== src/Fs/Vfs/Lookup.antt =====
-- Which mounted file system vfsgetFs() of kern/fs/vfs.cpp picks.
use page_fault_os_for_risc_v.Prelude.{
  ap, ℕ, zero, suc, ◌+◌, ◌≤◌, ◌<◌, ◌≡◌, ◌≢◌, ◌⊎◌, inl, inr, Bool, true, Option, none, some, ltb,
  ◌==◌, Bool-cases, refl, arith,
}
use page_fault_os_for_risc_v.Kernel.{Mount, Kernel}
use page_fault_os_for_risc_v.Proc.{maxpath}
use page_fault_os_for_risc_v.Fs.Vfs.{
  nfilesystem, PathName, length, length_from, match_from, Best, better, best_from, vfsget_fs,
}

-- The text ends within its array.
abbrev pub IsText : PathName → Type 0
IsText p = length p < maxpath

-- The path starts with the mount point.
abbrev pub StartsWith : PathName → PathName → Type 0
StartsWith p m = (j : ℕ) → j < length m → p j ≡ m j

pub length_from-ge : (r i : ℕ) (p : PathName) → i ≤ length_from r i p
unfolding length_from
length_from-ge zero i p = omega arith
length_from-ge (suc r) i p = ground (arith, length_from-ge r (i + 1) p)

-- The loop over the mount point compares up to its end, if the character that its test looks at is
-- not the end of the path.
module _ (slot : ℕ) (m p : PathName) (h : p slot ≢ 0) where
  match-yes :
      (r j i : ℕ)
      → length_from r i m < i + r
      → match_from r i slot m p ≡ true
      → i ≤ j
      → j < length_from r i m
      → p j ≡ m j
  unfolding match_from length_from
  match-yes zero j i t y a b = absurd (omega arith)
  match-yes (suc r) j i t y a b = elim (Bool-cases (m i == 0)) [
    | inl z ↦ absurd (ground arith)
    | inr n ↦ elim (Bool-cases (j == i)) [
      | inl e ↦ let e' : j ≡ i = ground arith in rw e' (ground arith)
      | inr d ↦ match-yes r j (i + 1) (ground arith) (ground arith) (ground arith) (ground arith)
    ]
  ]

  match-all :
      (r i : ℕ)
      → length_from r i m < i + r
      → ((j : ℕ) → i ≤ j → j < length_from r i m → p j ≡ m j)
      → match_from r i slot m p ≡ true
  unfolding match_from length_from
  match-all zero i t s = absurd (omega arith)
  match-all (suc r) i t s = elim (Bool-cases (m i == 0)) [
    | inl z ↦ ground arith
    | inr n ↦
        let l : i < length_from r (i + 1) m = omega (arith, length_from-ge r (i + 1) m) in
        ground (
          arith,
          s i,
          match-all r (i + 1) (ground arith) (λ j a b. s j (omega arith) (ground arith)),
        )
  ]

abbrev matches : ℕ → PathName → PathName → Bool
matches slot m p = match_from maxpath 0 slot m p

matches-StartsWith :
    (slot : ℕ) (m p : PathName) → p slot ≢ 0 → IsText m → matches slot m p ≡ true → StartsWith p m
unfolding length
matches-StartsWith slot m p h t y j b =
    match-yes slot m p h maxpath j 0 (omega arith) y (omega arith) b

StartsWith-matches :
    (slot : ℕ) (m p : PathName) → p slot ≢ 0 → IsText m → StartsWith p m → matches slot m p ≡ true
unfolding length
StartsWith-matches slot m p h t s = match-all slot m p h maxpath 0 (omega arith) (λ j a b. s j b)

-- A mounted file system whose mount point starts the path.
abbrev pub Serves : Kernel → PathName → (slot : ℕ) → Mount → Type 0
Serves k p i m = (k.mounted i ≡ some m) × StartsWith p m.mount_pos

-- Nothing was chosen yet, or a file system that serves the path.
abbrev IsGood : Kernel → PathName → Best → Type 0
IsGood k p b = (b.len ≡ 0) ⊎ ((m : Mount) × Serves k p b.slot m × (b.len ≡ length m.mount_pos))

same_length : (m n : Mount) → some m ≡ some n → length n.mount_pos ≡ length m.mount_pos
same_length m n q = let r : n ≡ m = cc in ap (λ (x : Mount). length x.mount_pos) r

same_start :
    (p : PathName) (m n : Mount)
    → some m ≡ some n
    → StartsWith p n.mount_pos
    → StartsWith p m.mount_pos
same_start p m n q s = let r : m ≡ n = cc in rw r s

module _ (k : Kernel) (p : PathName)
    (texts : (i : ℕ) (m : Mount) → k.mounted i ≡ some m → IsText m.mount_pos) where
  -- One round of the loop over the table.
  better_lem :
      (i : ℕ)
      → p i ≢ 0
      → (o : Option Mount) → k.mounted i ≡ o
      → (b : Best) → IsGood k p b
      → IsGood k p (better p i o b)
        × (b.len ≤ (better p i o b).len)
        × ((m : Mount)
            → o ≡ some m
            → StartsWith p m.mount_pos
            → length m.mount_pos ≤ (better p i o b).len)
  unfolding better
  better_lem i h none e b g = (g, omega arith, λ m q s. cc)
  better_lem i h (some m) e b g = elim (Bool-cases (matches i m.mount_pos p)) [
    | inl y ↦ elim (Bool-cases (ltb b.len (length m.mount_pos))) [
      | inl l ↦
          rw (y, l)
            (
              inr (m, (e, matches-StartsWith i m.mount_pos p h (texts i m e) y), refl),
              ground arith,
              λ m' q s.
                  let r : length m'.mount_pos ≡ length m.mount_pos = same_length m m' q in
                  omega (arith, r),
            )
      | inr l ↦
          rw (y, l)
            (
              g,
              omega arith,
              λ m' q s.
                  let r : length m'.mount_pos ≡ length m.mount_pos = same_length m m' q in
                  ground (arith, r),
            )
    ]
    | inr n ↦ rw n (
      g,
      omega arith,
      λ m' q s.
          absurd (cc (StartsWith-matches i m.mount_pos p h (texts i m e) (same_start p m m' q s))),
    )
  ]

  best_from_lem :
      (r i : ℕ)
      → ((j : ℕ) → i ≤ j → j < i + r → p j ≢ 0)
      → (b : Best) → IsGood k p b
      → IsGood k p (best_from r i k.mounted p b)
        × (b.len ≤ (best_from r i k.mounted p b).len)
        × ((j : ℕ) (m : Mount)
            → i ≤ j
            → j < i + r
            → Serves k p j m
            → length m.mount_pos ≤ (best_from r i k.mounted p b).len)
  unfolding best_from
  best_from_lem zero i h b g = (g, omega arith, λ j m a c s. absurd (omega arith))
  best_from_lem (suc r) i h b g =
      let (g1, l1, c1) = better_lem i (h i (omega arith) (omega arith)) (k.mounted i) refl b g in
      let (g2, l2, c2) =
        best_from_lem r (i + 1) (λ j a c. h j (omega arith) (omega arith))
          (better p i (k.mounted i) b) g1 in
      (
        g2,
        omega arith,
        λ j m a c s. elim (Bool-cases (j == i)) [
          | inl e ↦
              let e' : j ≡ i = ground arith in
              let w : length m.mount_pos ≤ (better p i (k.mounted i) b).len =
                c1 m (rw e' at s.0) s.1 in
              omega arith
          | inr n ↦ c2 j m (ground arith) (omega arith) s
        ],
      )

  -- For a path of at least NFILESYSTEM characters, and mount points that end within their arrays,
  -- vfsgetFs() returns a file system whose mount point starts the path and is as long as any other
  -- that does, if one with a mount point that is not empty is mounted.
  pub vfsget_fs_longest :
      ((j : ℕ) → j < nfilesystem → p j ≢ 0)
      → (i : ℕ) (m : Mount) → i < nfilesystem
      → Serves k p i m
      → 0 < length m.mount_pos
      → (n : Mount) × (vfsget_fs p k ≡ some n)
        × StartsWith p n.mount_pos
        × ((j : ℕ) (o : Mount)
            → j < nfilesystem
            → Serves k p j o
            → length o.mount_pos ≤ length n.mount_pos)
  unfolding vfsget_fs
  vfsget_fs_longest h i m lt s pos =
      let b : Best = best_from nfilesystem 0 k.mounted p (record { slot = 0; len = 0 }) in
      let (g, l, c) =
        best_from_lem nfilesystem 0 (λ j a d. h j d) (record { slot = 0; len = 0 }) (inl refl) in
      let w : 0 < b.len = omega (arith, c i m (omega arith) lt s) in
      elim g [
        | inl z ↦ absurd (omega arith)
        | inr (n, t, e) ↦ (n, t.0, t.1, λ j o d u. omega (arith, c j o (omega arith) d u))
      ]
