-- ===== src/Fs/Fat/Cache.antt =====
-- The sector in memory of kern/fs/fat32.cpp is transparent: tf_fetch() and tf_store() move bytes
-- between the card and the buffer, and change nothing of what a reader finds.
use page_fault_os_for_risc_v.Prelude.{
  eq→==, ap, sym, ◌∙◌, ==_iff, ℕ, ◌^◌, ◌<◌, ◌≡◌, ◌==◌, if◌then◌else◌, true, false, refl, arith,
  Bool-cases, inl, inr,
}
use page_fault_os_for_risc_v.Fs.Fat.{load_sector, flushed, Fat, Sector, device_sector, tf_fetch}

-- The card's sectors that `device_sector` leaves apart: the first two gigabytes.
abbrev pub Reachable : ℕ → Type 0
Reachable s = s < 2 ^ 22

-- What a reader of a sector is to find: the buffer, if the sector is the one in memory.
abbrev pub contents : Fat → ℕ → Sector
contents f s = if s == f.info.current_sector then f.info.buffer else f.card s

-- A sector in memory that is not marked has its bytes on the card; a marked one can be written back.
pub record IsCached (f : Fat) : Type 0 where
  pub clean :
      f.info.dirty ≡ false
      → f.info.current_sector < 2 ^ 22
      → f.info.buffer ≡ f.card f.info.current_sector
  pub marked : f.info.dirty ≡ true → f.info.current_sector < 2 ^ 22

pub device_sector_reachable : (s : ℕ) → s < 2 ^ 22 → device_sector s ≡ s
unfolding device_sector
device_sector_reachable s h = ground arith

-- What is on the card once a marked sector is written back.
pub flushed-card :
    (f : Fat) → IsCached f → (s : ℕ) → Reachable s → (flushed f).card s ≡ contents f s
unfolding flushed
flushed-card f c s h = elim (Bool-cases f.info.dirty) [
  | inl e ↦ rw (e, device_sector_reachable f.info.current_sector (c.marked e)) refl
  | inr e ↦ elim (Bool-cases (s == f.info.current_sector)) [
    | inl q ↦
        let q' : s ≡ f.info.current_sector = (==_iff s f.info.current_sector).0 q in
        rw (e, q) (rw q' (sym (c.clean e (ground arith))))
    | inr q ↦ rw (e, q) refl
  ]
]

flushed-layout :
    (f : Fat)
    → ((flushed f).info.dirty ≡ false)
      × ((flushed f).info.reserved_sectors ≡ f.info.reserved_sectors)
      × ((flushed f).info.total_sectors ≡ f.info.total_sectors)
      × ((flushed f).info.sectors_per_cluster ≡ f.info.sectors_per_cluster)
unfolding flushed
flushed-layout f = ground arith

load-contents : (g : Fat) (t : ℕ) → Reachable t → (s : ℕ) → contents (load_sector t g) s ≡ g.card s
load-contents g t h s = elim (Bool-cases (s == t)) [
  | inl q ↦
      let q' : s ≡ t = (==_iff s t).0 q in rw q (ap g.card (device_sector_reachable t h ∙ sym q'))
  | inr q ↦ rw q refl
]

-- The other members of TFInfo stay as they are.
pub tf_fetch-layout :
    (f : Fat) (t : ℕ)
    → ((tf_fetch t f).info.reserved_sectors ≡ f.info.reserved_sectors)
      × ((tf_fetch t f).info.total_sectors ≡ f.info.total_sectors)
      × ((tf_fetch t f).info.sectors_per_cluster ≡ f.info.sectors_per_cluster)
      × ((tf_fetch t f).info.current_sector ≡ t)
unfolding tf_fetch
tf_fetch-layout f t = ground (arith, flushed-layout f)

load-IsCached : (g : Fat) (t : ℕ) → Reachable t → IsCached (load_sector t g)
load-IsCached g t h = record {
  clean = λ _ _. ap g.card (device_sector_reachable t h);
  marked = λ m. h;
}

pub tf_fetch-IsCached : (f : Fat) → IsCached f → (t : ℕ) → Reachable t → IsCached (tf_fetch t f)
unfolding tf_fetch
tf_fetch-IsCached f c t h = elim (Bool-cases (t == f.info.current_sector)) [
  | inl e ↦ rw e c
  | inr e ↦ rw e (load-IsCached (flushed f) t h)
]

-- From a buffer that is consistent with the card, tf_fetch() of a sector below 2 GB changes what a reader
-- finds in no sector below 2 GB: a marked buffer is written back before it is replaced.
pub tf_fetch-contents :
    (f : Fat)
    → IsCached f
    → (t : ℕ) → Reachable t
    → (s : ℕ) → Reachable s
    → contents (tf_fetch t f) s ≡ contents f s
unfolding tf_fetch
tf_fetch-contents f c t h s h' = elim (Bool-cases (t == f.info.current_sector)) [
  | inl e ↦ rw e refl
  | inr e ↦ rw e (load-contents (flushed f) t h s ∙ flushed-card f c s h')
]

in_memory : (g : Fat) (t : ℕ) → t ≡ g.info.current_sector → g.info.buffer ≡ contents g t
in_memory g t e = rw (eq→== t g.info.current_sector e) refl

pub tf_fetch-buffer :
    (f : Fat) → IsCached f → (t : ℕ) → Reachable t → (tf_fetch t f).info.buffer ≡ contents f t
tf_fetch-buffer f c t h =
    in_memory (tf_fetch t f) t (sym (tf_fetch-layout f t).3) ∙ tf_fetch-contents f c t h t h
