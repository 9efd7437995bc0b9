-- ===== src/Fs/Vfs/Mounts/Laws.antt =====
-- What vfsmount() and vfsumount() of kern/fs/vfs.cpp do to the table.
use page_fault_os_for_risc_v.Prelude.{
  ◌⊎◌, ap, ℕ, zero, suc, ◌+◌, ◌≤◌, ◌<◌, ◌≡◌, ◌≢◌, true, false, Option, none, some, ltb, ◌==◌,
  if◌then◌else◌, refl, arith, inl, inr, Bool-cases, Option-cases, List, [], ◌∷◌,
}
use page_fault_os_for_risc_v.Kernel.{Mount, Kernel}
use page_fault_os_for_risc_v.Kernel.Run.{ok, panic, done, null_pointer, ◌>>◌}
use page_fault_os_for_risc_v.Sync.Spinlock.{free_lock, release}
use page_fault_os_for_risc_v.Sync.Spinlock.Laws.{
  settled, taken, acquire-ok, release-ok, holding-taken,
}
use page_fault_os_for_risc_v.Mm.Kalloc.{kfree}
use page_fault_os_for_risc_v.Mm.Kalloc.Laws.{
  IsFree, given, freed, kalloc-IsFree, kfree-IsFree, kalloc-empty,
}
use page_fault_os_for_risc_v.Fs.Vfs.{length_from, nfilesystem, PathName, length, clip, strip}
use page_fault_os_for_risc_v.Fs.Vfs.Lookup.{length_from-ge}
use page_fault_os_for_risc_v.Fs.Vfs.Paths.{get_ab_path-absolute}
use page_fault_os_for_risc_v.Fs.Vfs.Mounts.{
  mounted_ref, set_mount, FileSystemType, devfs, fat32, new_device_fs, create_fs, mount_from,
  vfsmount, same_text, same_mount, umount_from, vfsumount,
}

-- The kernel `t` after the lock of the table was given back.
abbrev pub closed : Kernel → Kernel
closed t = record (mounted_ref.put free_lock t) { cpu = record t.cpu { noff = 0; intr = false } }

closed-release :
    (k : Kernel)
    → k.cpu.noff ≡ 0
    → (f : (ℕ → Option Mount) → ℕ → Option Mount)
    → release mounted_ref (record (taken mounted_ref k) { mounted = f k.mounted })
      ≡ ok tt (closed (record (taken mounted_ref k) { mounted = f k.mounted }))
closed-release k d f =
    release-ok mounted_ref (record (taken mounted_ref k) { mounted = f k.mounted })
      (holding-taken mounted_ref k) refl (omega arith)

module _ (k : Kernel) (d : k.cpu.noff ≡ 0) where
  abbrev pub opened : Kernel
  opened = taken mounted_ref k

  -- The first free slot gets the file system.
  mount_from_lem :
      (fs : Mount) (g n i : ℕ)
      → i ≤ g
      → g < i + n
      → k.mounted g ≡ none
      → ((j : ℕ) → i ≤ j → j < g → k.mounted j ≢ none)
      → mount_from n i fs opened ≡ ok done (set_mount g (some fs) (closed opened))
  unfolding mount_from
  mount_from_lem fs g zero i lo hi e b = absurd (omega arith)
  mount_from_lem fs g (suc n) i lo hi e b = elim (Bool-cases (i == g)) [
    | inl q ↦
        let q' : i ≡ g = ground arith in
        rw (q', e, closed-release k d (λ x. x))
          (ap (λ x. ok done (set_mount x (some fs) (closed opened))) q')
    | inr q ↦ elim (Option-cases (k.mounted i)) [
      | inl z ↦ absurd (b i (omega arith) (ground arith) z)
      | inr (m, z) ↦ rw z (
          mount_from_lem fs g n (i + 1) (ground arith) (omega arith) e
            (λ j a c. b j (omega arith) c))
    ]
  ]

  -- The first file system with that mount point is taken off.
  umount_from_lem :
      (p : PathName) (m : Mount) (g n i : ℕ)
      → i ≤ g
      → g < i + n
      → k.mounted g ≡ some m
      → same_mount m p ≡ true
      → ((j : ℕ) (o : Mount) → i ≤ j → j < g → k.mounted j ≡ some o → same_mount o p ≡ false)
      → (t : Kernel) → kfree m.address (set_mount g none (closed opened)) ≡ ok tt t
      → umount_from n i p opened ≡ ok done t
  unfolding umount_from
  umount_from_lem p m g zero i lo hi e y b t z = absurd (omega arith)
  umount_from_lem p m g (suc n) i lo hi e y b t fr = elim (Bool-cases (i == g)) [
    | inl q ↦
        let q' : i ≡ g = ground arith in
        let fr' : kfree m.address (set_mount i none (closed opened)) ≡ ok tt t = rw q' fr in
        let here : k.mounted i ≡ some m = rw q' e in
        rw (here, y, closed-release k d (λ x j. if j == i then none else x j), fr') refl
    | inr q ↦
        let rest =
          umount_from_lem p m g n (i + 1) (ground arith) (omega arith) e y
            (λ j o a c. b j o (omega arith) c) t fr in
        elim (Option-cases (k.mounted i)) [
          | inl z ↦ rw z rest
          | inr (o, z) ↦ rw (z, b i o (omega arith) (ground arith) z) rest
        ]
  ]

same_text-pointwise :
    (p q : PathName) → ((j : ℕ) → p j ≡ q j) → (n i : ℕ) → same_text n i p q ≡ true
unfolding same_text
same_text-pointwise p q h zero i = refl
same_text-pointwise p q h (suc n) i = ground (arith, h i, same_text-pointwise p q h n (i + 1))

abbrev cut : PathName → ℕ → PathName
cut q l i = if ltb i l then q i else 0

length_from-cut : (q : PathName) (l r i : ℕ) → length_from r i q ≡ l → length_from r i (cut q l) ≡ l
unfolding length_from
length_from-cut q l zero i e = e
length_from-cut q l (suc r) i e =
    ground (arith, length_from-ge r (i + 1) q, length_from-cut q l r (i + 1))

clip-clip : (q : PathName) (j : ℕ) → clip (clip q) j ≡ clip q j
unfolding length
clip-clip q j = rw (length_from-cut q (length q) 64 0 refl) (ground arith)

abbrev pub ready : Kernel → Kernel
ready k = record k { cpu = settled k.cpu }

-- The two types that createFileSystem() knows.
abbrev pub Known : FileSystemType → Type 0
Known type = (type ≡ devfs) ⊎ (type ≡ fat32)

abbrev pub added : (mp dev : PathName) → (p : ℕ) → Mount
added mp dev p = record { address = p; mount_pos = clip (clip (strip mp)); special_dev = clip dev }

create_fs-Known :
    (type : FileSystemType) → Known type → (m d : PathName) → create_fs type m d ≡ new_device_fs m d
unfolding create_fs
create_fs-Known type (inl e) m d = rw e refl
create_fs-Known type (inr e) m d = rw e refl

ready-IsFree : (k : Kernel) (ps : List ℕ) → IsFree k ps → IsFree (ready k) ps
ready-IsFree k ps f = record {
  chain = f.chain;
  count = f.count;
  unlocked = f.unlocked;
  depth = refl;
}

module _ (k : Kernel) (p : ℕ) (ps : List ℕ) (f : IsFree k (p ∷ ps))
    (u : k.mounted_lock.locked ≡ false) (mp dev : PathName) (a : strip mp 0 ≡ b'/')
    (type : FileSystemType) (known : Known type) (g : ℕ) (lt : g < nfilesystem)
    (e : k.mounted g ≡ none) where
  abbrev made : Kernel
  made = given p (ready k)

  made-IsFree : IsFree made ps
  made-IsFree = (kalloc-IsFree (ready k) p ps (ready-IsFree k (p ∷ ps) f)).1

  new_device_fs-made : new_device_fs (clip (strip mp)) dev (ready k) ≡ ok (added mp dev p) made
  unfolding new_device_fs
  new_device_fs-made =
      let nz : (p == 0) ≡ false = let z = f.chain.1.ne_zero in ground arith in
      rw ((kalloc-IsFree (ready k) p ps (ready-IsFree k (p ∷ ps) f)).0, nz) refl

  -- The kernel after vfsmount() filled the slot.
  abbrev pub with_mount : Kernel
  with_mount = set_mount g (some (added mp dev p)) (closed (opened made refl))

  vfsmount_lem :
      ((j : ℕ) → j < g → k.mounted j ≢ none) → vfsmount type mp dev k ≡ ok done with_mount
  unfolding vfsmount
  vfsmount_lem b =
      rw
        (
          get_ab_path-absolute mp k f.depth a,
          create_fs-Known type known (clip (strip mp)) dev,
          new_device_fs-made,
          acquire-ok mounted_ref made u,
        )
        (mount_from_lem made refl (added mp dev p) g nfilesystem 0 (omega arith) lt e
          (λ j _ c. b j c))

  -- The kernel when the object is deleted.
  abbrev emptied : Kernel
  emptied = set_mount g none (closed (opened (ready with_mount) refl))

  emptied-IsFree : IsFree emptied ps
  emptied-IsFree =
      let i = made-IsFree in
      record { chain = i.chain; count = i.count; unlocked = i.unlocked; depth = refl }

  deleted : (kfree p emptied ≡ ok tt (freed p emptied)) × IsFree (freed p emptied) (p ∷ ps)
  deleted = kfree-IsFree emptied p ps emptied-IsFree f.chain.1 f.chain.2

  vfsumount_lem :
      ((j : ℕ) (o : Mount) → j < g → k.mounted j ≡ some o → same_mount o (clip (strip mp)) ≡ false)
      → vfsumount mp with_mount ≡ ok done (freed p emptied)
  unfolding vfsumount
  vfsumount_lem b =
      rw (get_ab_path-absolute mp with_mount refl a, acquire-ok mounted_ref (ready with_mount) refl)
        (umount_from_lem (ready with_mount) refl (clip (strip mp)) (added mp dev p) g nfilesystem 0
          (omega arith) lt (ground arith)
          (same_text-pointwise (clip (clip (strip mp))) (clip (strip mp)) (clip-clip (strip mp)) _
            0)
          (λ j o _ c h. b j o c (ground (arith, h))) (freed p emptied) deleted.0)

  -- With a free page, the locks of the allocator and of the table free, outside every critical section, for
  -- an absolute path and a type that createFileSystem() knows: vfsmount() takes the page for the
  -- object and fills the first free slot of the table, if there is one, and vfsumount() of the same
  -- path then empties that slot and no other, unless an earlier slot has that mount point, and gives
  -- the page back: the table is what it was, its lock is free, and the same pages are free.
  pub vfsumount-vfsmount :
      ((j : ℕ) (o : Mount) → j < g → k.mounted j ≡ some o → same_mount o (clip (strip mp)) ≡ false)
      → ((j : ℕ) → j < g → k.mounted j ≢ none)
      → (t : Kernel) × ((vfsmount type mp dev >> vfsumount mp) k ≡ ok done t)
        × ((j : ℕ) → t.mounted j ≡ k.mounted j)
        × (t.mounted_lock ≡ free_lock)
        × IsFree t (p ∷ ps)
  vfsumount-vfsmount b c = (
    freed p emptied,
    rw (vfsmount_lem c) (vfsumount_lem b),
    λ j. ground (arith, e),
    refl,
    deleted.1,
  )

-- Without a free page the constructor writes through a null pointer.
pub vfsmount_full :
    (k : Kernel) (mp dev : PathName) (type : FileSystemType)
    → IsFree k []
    → strip mp 0 ≡ b'/'
    → Known type
    → vfsmount type mp dev k ≡ panic null_pointer
unfolding vfsmount new_device_fs
vfsmount_full k mp dev type f a known =
    rw
      (
        get_ab_path-absolute mp k f.depth a,
        create_fs-Known type known (clip (strip mp)) dev,
        (kalloc-empty (ready k) (ready-IsFree k [] f)).0,
      )
      refl
