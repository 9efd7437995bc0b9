-- ===== src/Fs/Fat/Seek/Laws.antt =====
-- Where a seek of kern/fs/fat32.cpp ends.
use page_fault_os_for_risc_v.Prelude.{
  ◌∙◌, sym, ap, ℕ, zero, suc, ◌+◌, ◌-◌, ◌/◌, ◌%◌, ◌^◌, ◌<◌, ◌≡◌, ◌==◌, false, ltb, leb, arith, refl,
  inl, inr, Bool-cases,
}
use page_fault_os_for_risc_v.Fs.Fat.{Fat, tf_get_fat_entry}
use page_fault_os_for_risc_v.Fs.Fat.Cache.{IsCached}
use page_fault_os_for_risc_v.Fs.Fat.Table.{fat_entry, tf_get_fat_entry-value}
use page_fault_os_for_risc_v.Fs.Fat.Search.{Same, Same-refl, Same-trans, get-Same}
use page_fault_os_for_risc_v.Fs.Fat.Chain.{eoc32}
use page_fault_os_for_risc_v.Fs.Fat.Seek.{
  TfFile, Sought, next_cluster, follow, cluster_size, tf_unsafe_fseek, tf_fseek, settled, route,
}

-- The cluster `n` places on in the chain from `c`.
unfoldable pub nth : Fat → (c n : ℕ) → ℕ
nth f c zero = c
nth f c (suc n) = nth f (fat_entry f c) n

-- The chain from `c` goes on for `n` places.
abbrev pub Links : Fat → (c n : ℕ) → Type 0
Links f c zero = Unit {0}
Links f c (suc n) = (c < 2 ^ 28) × (fat_entry f c < eoc32) × Links f (fat_entry f c) n

pub Links-Same : (f g : Fat) → Same f g → (n c : ℕ) → Links f c n → Links g c n
Links-Same f g s zero c l = tt
Links-Same f g s (suc n) c l =
    rw (s.entries c l.0) (l.0, l.1, Links-Same f g s n (fat_entry f c) l.2)

pub nth-Same : (f g : Fat) → Same f g → (n c : ℕ) → Links f c n → nth g c n ≡ nth f c n
unfolding nth
nth-Same f g s zero c l = refl
nth-Same f g s (suc n) c l = rw (s.entries c l.0) (nth-Same f g s n (fat_entry f c) l.2)

next_cluster-link :
    (c : ℕ) (f : Fat) → (tf_get_fat_entry c f).0 < eoc32 → next_cluster c f ≡ tf_get_fat_entry c f
unfolding next_cluster
next_cluster-link c f l =
    let q : ((tf_get_fat_entry c f).0 % 2 ^ 28 == eoc32) ≡ false = ground arith in rw q refl

-- `follow` keeps to an existing chain, and changes nothing.
pub follow_lem :
    (n c : ℕ) (f : Fat)
    → IsCached f
    → f.info.reserved_sectors < 2 ^ 16
    → Links f c n
    → (g : Fat) × (follow n c f ≡ (Sought.found, nth f c n, g)) × Same f g
unfolding follow nth
follow_lem zero c f h r l = (f, refl, Same-refl f h)
follow_lem (suc n) c f h r l =
    let s = get-Same f h r c l.0 in
    let v = tf_get_fat_entry-value f h c (omega (arith, l.0)) in
    let (g, e, t) =
      follow_lem n (fat_entry f c) (tf_get_fat_entry c f).1 s.cached (omega (arith, s.reserved))
        (Links-Same f _ s n (fat_entry f c) l.2) in
    let q : leb eoc32 (fat_entry f c) ≡ false = ground (arith, l.1) in
    let i : nth (tf_get_fat_entry c f).1 (fat_entry f c) n ≡ nth f (fat_entry f c) n =
      nth-Same f _ s n (fat_entry f c) l.2 in
    (g, rw (next_cluster-link c f (omega (arith, v, l.1)), v, q, ← i) e, Same-trans s t)

nth-add : (f : Fat) (a b c : ℕ) → nth f c (a + b) ≡ nth f (nth f c a) b
unfolding nth
nth-add f zero b c = let e : 0 + b ≡ b = omega arith in rw e refl
nth-add f (suc a) b c =
    let e : suc a + b ≡ suc (a + b) = omega arith in rw e (nth-add f a b (fat_entry f c))

Links-drop : (f : Fat) (a b c n : ℕ) → a + b ≡ n → Links f c n → Links f (nth f c a) b
unfolding nth
Links-drop f zero b c n q l = let e : b ≡ n = omega arith in rw e l
Links-drop f (suc a) b c zero q l = absurd (omega arith)
Links-drop f (suc a) b c (suc n) q l = Links-drop f a b (fat_entry f c) n (omega arith) l.2

abbrev pub placed : Fat → (idx pos : ℕ) → TfFile → TfFile
placed f idx pos fp = record fp {
  current_cluster_idx = idx;
  current_cluster = nth f fp.start_cluster idx;
  current_byte = pos % cluster_size f;
  pos = pos;
}

module _ (f : Fat) (h : IsCached f) (r : f.info.reserved_sectors < 2 ^ 16) (fp : TfFile)
    (here : fp.current_cluster ≡ nth f fp.start_cluster fp.current_cluster_idx) (idx : ℕ)
    (l : Links f fp.start_cluster idx) where
  route_lem :
      (g : Fat) × (follow (route idx fp).0 (route idx fp).1 f
        ≡ (Sought.found, nth f fp.start_cluster idx, g))
      × Same f g
  route_lem = elim (Bool-cases (ltb fp.current_cluster_idx idx)) [
    | inl e ↦
        let k = idx - fp.current_cluster_idx in
        let q : fp.current_cluster_idx + k ≡ idx = ground arith in
        let w : nth f fp.start_cluster idx ≡ nth f fp.current_cluster k =
          ap (nth f fp.start_cluster) (sym q)
          ∙ nth-add f fp.current_cluster_idx k fp.start_cluster
          ∙ ap (λ c. nth f c k) (sym here) in
        let (g, run, s) =
          follow_lem k fp.current_cluster f h r
            (rw here (Links-drop f fp.current_cluster_idx k fp.start_cluster idx q l)) in
        (g, rw e (run ∙ ap (λ c. (Sought.found, c, g)) (sym w)), s)
    | inr e ↦ rw e (follow_lem idx fp.start_cluster f h r l)
  ]

settled-placed :
    (f : Fat) (fp : TfFile)
    → fp.current_cluster ≡ nth f fp.start_cluster fp.current_cluster_idx
    → (idx pos : ℕ) → fp.current_cluster_idx ≡ idx
    → settled pos f fp ≡ placed f idx pos fp
settled-placed f fp here idx pos e = λ i. record fp {
  current_cluster_idx = e i;
  current_cluster = (here ∙ ap (nth f fp.start_cluster) e) i;
  current_byte = pos % cluster_size f;
  pos = pos;
}

pub tf_fseek_lem :
    (f : Fat)
    → IsCached f
    → f.info.reserved_sectors < 2 ^ 16
    → (fp : TfFile) → fp.current_cluster ≡ nth f fp.start_cluster fp.current_cluster_idx
    → (pos : ℕ) → pos < fp.size
    → Links f fp.start_cluster (pos / cluster_size f)
    → (g : Fat) × (tf_fseek pos fp f ≡ (Sought.found, placed f (pos / cluster_size f) pos fp, g))
      × Same f g
unfolding tf_fseek tf_unsafe_fseek
tf_fseek_lem f h r fp here pos b l =
    let x : leb fp.size pos ≡ false = ground arith in
    let y : ltb fp.size pos ≡ false = ground arith in
    let z : (pos == fp.size) ≡ false = ground arith in
    rw (x, y, z)
      (elim (Bool-cases (pos / cluster_size f == fp.current_cluster_idx)) [
        | inl e ↦ (
          f,
          rw e (
              ap (λ p. (Sought.found, p, f))
                (settled-placed f fp here (pos / cluster_size f) pos (ground arith))),
          Same-refl f h,
        )
        | inr e ↦
            let (g, run, s) = route_lem f h r fp here (pos / cluster_size f) l in
            (g, rw (e, run) refl, s)
      ])
