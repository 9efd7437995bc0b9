-- ===== src/Fs/Fat/Table.antt =====
-- tf_get_fat_entry() and tf_set_fat_entry() of kern/fs/fat32.cpp read and write one entry of the
-- file allocation table, whatever sector is in memory.
use page_fault_os_for_risc_v.Prelude.{
  sym, ◌∙◌, ==_iff, eq→==, ap, ◌≢◌, ℕ, ◌+◌, ◌*◌, ◌/◌, ◌%◌, ◌^◌, ◌<◌, ◌≡◌, ◌==◌, if◌then◌else◌, true,
  false, refl, arith, Bool-cases, inl, inr,
}
use page_fault_os_for_risc_v.Fs.Fat.{
  Fat, Sector, tf_fetch, get_u32, put_u32, entry_sector, entry_offset, tf_get_fat_entry,
  tf_set_fat_entry,
}
use page_fault_os_for_risc_v.Fs.Fat.Cache.{
  IsCached, contents, Reachable, tf_fetch-IsCached, tf_fetch-contents, tf_fetch-buffer,
  tf_fetch-layout,
}

-- The entry lies in the card's reachable part.
abbrev pub InTable : Fat → ℕ → Type 0
InTable f c = f.info.reserved_sectors + c / 128 < 2 ^ 22

-- The entry of a cluster, in memory or on the card.
unfoldable pub fat_entry : Fat → ℕ → ℕ
fat_entry f c = get_u32 (contents f (f.info.reserved_sectors + c / 128)) (c % 128 * 4)

get_u32-put_u32 : (b : Sector) (o v : ℕ) → v < 2 ^ 32 → get_u32 (put_u32 b o v) o ≡ v
unfolding get_u32 put_u32
get_u32-put_u32 b o v h = ground arith

put_u32-other : (b : Sector) (x v i : ℕ) → i / 4 ≢ x → put_u32 b (x * 4) v i ≡ b i
unfolding put_u32
put_u32-other b x v i h = ground arith

get_u32-put_u32_other :
    (b : Sector) (x y v : ℕ) → y ≢ x → get_u32 (put_u32 b (x * 4) v) (y * 4) ≡ get_u32 b (y * 4)
unfolding get_u32
get_u32-put_u32_other b x y v d = omega (
  arith,
  put_u32-other b x v (y * 4) (omega arith),
  put_u32-other b x v (y * 4 + 1) (omega arith),
  put_u32-other b x v (y * 4 + 2) (omega arith),
  put_u32-other b x v (y * 4 + 3) (omega arith),
)

module _ (f : Fat) (c : ℕ) (k : InTable f c) where
  sector_lem : entry_sector f c ≡ f.info.reserved_sectors + c / 128
  sector_lem = omega arith

  offset_lem : entry_offset c % 512 ≡ c % 128 * 4
  offset_lem = omega arith

-- tf_fetch() keeps every entry.
pub fat_entry-tf_fetch :
    (f : Fat)
    → IsCached f
    → (t : ℕ) → Reachable t
    → (c : ℕ) → InTable f c
    → fat_entry (tf_fetch t f) c ≡ fat_entry f c
unfolding fat_entry
fat_entry-tf_fetch f v t h c k =
    rw (tf_fetch-layout f t).0 (ap (λ b. get_u32 b (c % 128 * 4)) (tf_fetch-contents f v t h _ k))

-- tf_get_fat_entry() returns the entry.
pub tf_get_fat_entry-value :
    (f : Fat) → IsCached f → (c : ℕ) → InTable f c → (tf_get_fat_entry c f).0 ≡ fat_entry f c
unfolding tf_get_fat_entry fat_entry
tf_get_fat_entry-value f v c k =
    rw (sector_lem f c k, offset_lem f c k)
      (ap (λ b. get_u32 b (c % 128 * 4))
        (tf_fetch-buffer f v (f.info.reserved_sectors + c / 128) k))

pub tf_get_fat_entry-state :
    (f : Fat)
    → IsCached f
    → (c : ℕ) → InTable f c
    → (d : ℕ) → InTable f d
    → fat_entry (tf_get_fat_entry c f).1 d ≡ fat_entry f d
unfolding tf_get_fat_entry
tf_get_fat_entry-state f v c k d kd = rw (sector_lem f c k) (fat_entry-tf_fetch f v _ k d kd)

abbrev written : Fat → (x v : ℕ) → Fat
written g x v = record g {
  info = record g.info { dirty = true; buffer = put_u32 g.info.buffer (x * 4) v };
}

-- What the written entry does to every entry.
module _ (g : Fat) (c v : ℕ) (b : v < 2 ^ 32)
    (here : g.info.reserved_sectors + c / 128 ≡ g.info.current_sector) where
  written_self : fat_entry (written g (c % 128) v) c ≡ v
  unfolding fat_entry
  written_self = rw (eq→== _ _ here) (get_u32-put_u32 g.info.buffer (c % 128 * 4) v b)

  written_other : (d : ℕ) → d ≢ c → fat_entry (written g (c % 128) v) d ≡ fat_entry g d
  unfolding fat_entry
  written_other d n =
      elim (Bool-cases (g.info.reserved_sectors + d / 128 == g.info.current_sector)) [
        | inl q ↦ rw q (get_u32-put_u32_other g.info.buffer (c % 128) (d % 128) v (ground arith))
        | inr q ↦ rw q refl
      ]

-- The write of tf_set_fat_entry(), which leaves an entry that has the value already.
abbrev stored : Fat → (x v : ℕ) → Fat
stored g x v = if get_u32 g.info.buffer (x * 4) == v then g else written g x v

module _ (g : Fat) (c v : ℕ) (b : v < 2 ^ 32)
    (here : g.info.reserved_sectors + c / 128 ≡ g.info.current_sector) where
  in_buffer : get_u32 g.info.buffer (c % 128 * 4) ≡ fat_entry g c
  unfolding fat_entry
  in_buffer = rw (eq→== _ _ here) refl

  stored-fat_entry :
      (d : ℕ) → fat_entry (stored g (c % 128) v) d ≡ (if d == c then v else fat_entry g d)
  stored-fat_entry d = elim (Bool-cases (get_u32 g.info.buffer (c % 128 * 4) == v)) [
    | inl e ↦ rw e (elim (Bool-cases (d == c)) [
      | inl q ↦ rw (q, (==_iff d c).0 q) (sym in_buffer ∙ (==_iff _ v).0 e)
      | inr q ↦ rw q refl
    ])
    | inr e ↦ rw e (elim (Bool-cases (d == c)) [
      | inl q ↦ rw (q, (==_iff d c).0 q) (written_self g c v b here)
      | inr q ↦ rw q (written_other g c v b here d (ground arith))
    ])
  ]

  stored-IsCached : IsCached g → g.info.current_sector < 2 ^ 22 → IsCached (stored g (c % 128) v)
  stored-IsCached h m = elim (Bool-cases (get_u32 g.info.buffer (c % 128 * 4) == v)) [
    | inl e ↦ rw e h
    | inr e ↦ rw e (record { clean = λ w. cc; marked = λ _. m })
  ]

  stored-contents :
      (s : ℕ) → s ≢ g.info.current_sector → contents (stored g (c % 128) v) s ≡ contents g s
  stored-contents s n = elim (Bool-cases (get_u32 g.info.buffer (c % 128 * 4) == v)) [
    | inl e ↦ rw e refl
    | inr e ↦ let q : (s == g.info.current_sector) ≡ false = ground arith in rw (e, q) refl
  ]

module _ (f : Fat) (h : IsCached f) (c v : ℕ) (k : InTable f c) (b : v < 2 ^ 32) where
  fetched : Fat
  fetched = tf_fetch (f.info.reserved_sectors + c / 128) f

  set_stored : tf_set_fat_entry c v f ≡ stored fetched (c % 128) v
  unfolding tf_set_fat_entry fetched
  set_stored = rw (sector_lem f c k, offset_lem f c k) refl

  fetched-here : fetched.info.reserved_sectors + c / 128 ≡ fetched.info.current_sector
  unfolding fetched
  fetched-here =
      let l = tf_fetch-layout f (f.info.reserved_sectors + c / 128) in omega (arith, l.0, l.3)

  -- tf_set_fat_entry() makes the value the cluster's entry and leaves every other entry as it is.
  pub tf_set_fat_entry_lem :
      (d : ℕ)
      → InTable f d
      → fat_entry (tf_set_fat_entry c v f) d ≡ (if d == c then v else fat_entry f d)
  unfolding fetched
  tf_set_fat_entry_lem d kd = rw set_stored (
      stored-fat_entry fetched c v b fetched-here d
      ∙ ap (λ x. if d == c then v else x) (fat_entry-tf_fetch f h _ k d kd))

  pub tf_set_fat_entry-IsCached : IsCached (tf_set_fat_entry c v f)
  unfolding fetched
  tf_set_fat_entry-IsCached = rw set_stored (
      stored-IsCached fetched c v b fetched-here (tf_fetch-IsCached f h _ k)
        (rw (tf_fetch-layout f _).3 k))

  -- No sector but the entry's changes.
  pub tf_set_fat_entry-contents :
      (s : ℕ)
      → Reachable s
      → s ≢ f.info.reserved_sectors + c / 128
      → contents (tf_set_fat_entry c v f) s ≡ contents f s
  unfolding fetched
  tf_set_fat_entry-contents s r n = rw set_stored (
      stored-contents fetched c v b fetched-here s (λ e. n (e ∙ (tf_fetch-layout f _).3))
      ∙ tf_fetch-contents f h _ k s r)

  pub tf_set_fat_entry-layout :
      ((tf_set_fat_entry c v f).info.reserved_sectors ≡ f.info.reserved_sectors)
      × ((tf_set_fat_entry c v f).info.total_sectors ≡ f.info.total_sectors)
      × ((tf_set_fat_entry c v f).info.sectors_per_cluster ≡ f.info.sectors_per_cluster)
  unfolding tf_set_fat_entry
  tf_set_fat_entry-layout = ground (arith, tf_fetch-layout f (entry_sector f c))

pub tf_get_fat_entry-IsCached :
    (f : Fat) → IsCached f → (c : ℕ) → InTable f c → IsCached (tf_get_fat_entry c f).1
unfolding tf_get_fat_entry
tf_get_fat_entry-IsCached f v c k = rw (sector_lem f c k) (tf_fetch-IsCached f v _ k)

pub tf_get_fat_entry-layout :
    (f : Fat) (c : ℕ)
    → ((tf_get_fat_entry c f).1.info.reserved_sectors ≡ f.info.reserved_sectors)
      × ((tf_get_fat_entry c f).1.info.total_sectors ≡ f.info.total_sectors)
      × ((tf_get_fat_entry c f).1.info.sectors_per_cluster ≡ f.info.sectors_per_cluster)
unfolding tf_get_fat_entry
tf_get_fat_entry-layout f c = let l = tf_fetch-layout f (entry_sector f c) in (l.0, l.1, l.2)
