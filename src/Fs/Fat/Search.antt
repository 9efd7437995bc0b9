-- ===== src/Fs/Fat/Search.antt =====
-- The searches for a free cluster in kern/fs/fat32.cpp. `entry & 0x0fffffff` is `entry % 2 ^ 28`.
use page_fault_os_for_risc_v.Prelude.{
  sym, from_here, ap, ◌∙◌, ℕ, zero, suc, ◌+◌, ◌-◌, ◌/◌, ◌%◌, ◌^◌, ◌<◌, ◌≤◌, ◌≡◌, ◌==◌,
  if◌then◌else◌, true, false, refl, arith, Bool-cases, inl, inr,
}
use page_fault_os_for_risc_v.Fs.Fat.{Bool, Fat, tf_get_fat_entry}
use page_fault_os_for_risc_v.Fs.Fat.Cache.{IsCached}
use page_fault_os_for_risc_v.Fs.Fat.Table.{
  fat_entry, tf_get_fat_entry-value, tf_get_fat_entry-state, tf_get_fat_entry-IsCached,
  tf_get_fat_entry-layout,
}

abbrev pub is_free : ℕ → Bool
is_free entry = entry % 2 ^ 28 == 0

-- The loop over the clusters from `i`, with the rounds that it has left.
unfoldable pub scan_from : (rounds i : ℕ) → Fat → ℕ × Fat
scan_from zero i f = (i, f)
scan_from (suc n) i f =
    let (entry, g) = tf_get_fat_entry i f in
    let rest = scan_from n (i + 1) g in if is_free entry then (i, g) else rest

abbrev pub total_clusters : Fat → ℕ
total_clusters f = f.info.total_sectors / f.info.sectors_per_cluster

unfoldable pub tf_find_free_cluster : Fat → ℕ × Fat
tf_find_free_cluster f = scan_from (total_clusters f) 0 f

-- The search starts over from the beginning when it has found nothing up to the end.
unfoldable pub tf_find_free_cluster_from : ℕ → Fat → ℕ × Fat
tf_find_free_cluster_from c f =
    let (i, g) = scan_from (total_clusters f - c) c f in
    if i == total_clusters f then tf_find_free_cluster g else (i, g)

-- The volume as it was: the table and the layout.
pub record Same (f g : Fat) : Type 0 where
  pub cached : IsCached g
  pub entries : (d : ℕ) → d < 2 ^ 28 → fat_entry g d ≡ fat_entry f d
  pub reserved : g.info.reserved_sectors ≡ f.info.reserved_sectors
  pub total : g.info.total_sectors ≡ f.info.total_sectors
  pub per_cluster : g.info.sectors_per_cluster ≡ f.info.sectors_per_cluster

-- The number that a search from `i` up to `b` ends with.
pub record Found (f : Fat) (i b r : ℕ) : Type 0 where
  pub lower : i ≤ r
  pub upper : r ≤ b
  pub passed : (j : ℕ) → i ≤ j → j < r → is_free (fat_entry f j) ≡ false
  pub free : r < b → is_free (fat_entry f r) ≡ true

pub get-Same :
    (f : Fat)
    → IsCached f
    → f.info.reserved_sectors < 2 ^ 16
    → (c : ℕ) → c < 2 ^ 28
    → Same f (tf_get_fat_entry c f).1
get-Same f h r c k =
    let l = tf_get_fat_entry-layout f c in
    record {
      cached = tf_get_fat_entry-IsCached f h c (omega arith);
      entries = λ d q. tf_get_fat_entry-state f h c (omega arith) d (omega arith);
      reserved = l.0;
      total = l.1;
      per_cluster = l.2;
    }

pub Same-trans : {f g h : Fat} → Same f g → Same g h → Same f h
Same-trans a b = record {
  cached = b.cached;
  entries = λ d q. b.entries d q ∙ a.entries d q;
  reserved = b.reserved ∙ a.reserved;
  total = b.total ∙ a.total;
  per_cluster = b.per_cluster ∙ a.per_cluster;
}

-- A cluster that is not free goes in front of what the rest of the search passes.
Found-cons :
    (f g : Fat) (i b r : ℕ)
    → b ≤ 2 ^ 28
    → Same f g
    → is_free (fat_entry f i) ≡ false
    → Found g (i + 1) b r
    → Found f i b r
Found-cons f g i b r k s e o = record {
  lower = omega (arith, o.lower);
  upper = o.upper;
  passed =
      from_here (λ j. is_free (fat_entry f j) ≡ false) i r e
        (λ j p q. ap is_free (sym (s.entries j (omega (arith, o.upper)))) ∙ o.passed j p q);
  free = λ p. ap is_free (sym (s.entries r (omega arith))) ∙ o.free p;
}

Found-here : (f : Fat) (i b : ℕ) → i ≤ b → is_free (fat_entry f i) ≡ true → Found f i b i
Found-here f i b h e = record {
  lower = omega arith;
  upper = h;
  passed = λ j p q. absurd (omega arith);
  free = λ _. e;
}

pub Same-refl : (f : Fat) → IsCached f → Same f f
Same-refl f h = record {
  cached = h;
  entries = λ d q. refl;
  reserved = refl;
  total = refl;
  per_cluster = refl;
}

pub scan_from_lem :
    (n i b : ℕ) (f : Fat)
    → IsCached f
    → f.info.reserved_sectors < 2 ^ 16
    → i + n ≡ b
    → b ≤ 2 ^ 28
    → Found f i b (scan_from n i f).0 × Same f (scan_from n i f).1
unfolding scan_from
scan_from_lem zero i b f h r e k = (
  record {
    lower = omega arith;
    upper = omega arith;
    passed = λ j p q. absurd (omega arith);
    free = λ p. absurd (omega arith);
  },
  Same-refl f h,
)
scan_from_lem (suc n) i b f h r q k =
    let s = get-Same f h r i (omega arith) in
    let v = tf_get_fat_entry-value f h i (omega arith) in
    elim (Bool-cases (is_free (tf_get_fat_entry i f).0)) [
      | inl e ↦ rw e (Found-here f i b (omega arith) (ap is_free (sym v) ∙ e), s)
      | inr e ↦ rw e (
          let (o, t) =
            scan_from_lem n (i + 1) b (tf_get_fat_entry i f).1 s.cached (omega (arith, s.reserved))
              (omega arith) k in
          (
            Found-cons f (tf_get_fat_entry i f).1 i b _ k s (ap is_free (sym v) ∙ e) o,
            Same-trans s t,
          ))
    ]

-- tf_find_free_cluster() returns the lowest cluster of the volume whose entry is free, or the number
-- of clusters if none is, and leaves the table as it was.
pub tf_find_free_cluster_lowest :
    (f : Fat)
    → IsCached f
    → f.info.reserved_sectors < 2 ^ 16
    → total_clusters f ≤ 2 ^ 28
    → Found f 0 (total_clusters f) (tf_find_free_cluster f).0 × Same f (tf_find_free_cluster f).1
unfolding tf_find_free_cluster
tf_find_free_cluster_lowest f h r k =
    scan_from_lem (total_clusters f) 0 (total_clusters f) f h r (omega arith) k

-- A free cluster of the volume, and the volume as it was.
abbrev pub Finds : Fat → ℕ × Fat → Type 0
Finds f x = (x.0 < total_clusters f) × (is_free (fat_entry f x.0) ≡ true) × Same f x.1

module _ (f g : Fat) (s : Same f g) (r : f.info.reserved_sectors < 2 ^ 16)
    (k : total_clusters f ≤ 2 ^ 28) where
  total_clusters-Same : total_clusters g ≡ total_clusters f
  total_clusters-Same = λ i. s.total i / s.per_cluster i

  search_again :
      (d : ℕ)
      → d < total_clusters f
      → is_free (fat_entry f d) ≡ true
      → Finds f (tf_find_free_cluster g)
  search_again d q z =
      let (o, t) =
        tf_find_free_cluster_lowest g s.cached (omega (arith, s.reserved))
          (omega (arith, total_clusters-Same)) in
      let below : (tf_find_free_cluster g).0 < total_clusters g =
        ground (arith, o.passed d, o.upper, s.entries d, total_clusters-Same) in
      let below' : (tf_find_free_cluster g).0 < total_clusters f =
        omega (arith, below, total_clusters-Same) in
      (
        below',
        ap is_free (sym (s.entries (tf_find_free_cluster g).0 (omega arith))) ∙ o.free below,
        Same-trans s t,
      )

-- tf_find_free_cluster_from() finds a free cluster of the volume if there is one, before or after
-- the cluster that it starts from, and leaves the table as it was.
pub tf_find_free_cluster_from-Finds :
    (f : Fat)
    → IsCached f
    → f.info.reserved_sectors < 2 ^ 16
    → total_clusters f ≤ 2 ^ 28
    → (c : ℕ) → c ≤ total_clusters f
    → (d : ℕ) → d < total_clusters f
    → is_free (fat_entry f d) ≡ true
    → Finds f (tf_find_free_cluster_from c f)
unfolding tf_find_free_cluster_from
tf_find_free_cluster_from-Finds f h r k c b d q z =
    let (o, s) = scan_from_lem (total_clusters f - c) c (total_clusters f) f h r (omega arith) k in
    elim (Bool-cases ((scan_from (total_clusters f - c) c f).0 == total_clusters f)) [
      | inl e ↦ rw e (search_again f (scan_from (total_clusters f - c) c f).1 s r k d q z)
      | inr e ↦ rw e (
          let below : (scan_from (total_clusters f - c) c f).0 < total_clusters f =
            ground (arith, o.upper) in
          (below, o.free below, s))
    ]
