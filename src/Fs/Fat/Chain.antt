-- ===== src/Fs/Fat/Chain.antt =====
-- tf_free_clusterchain() of kern/fs/fat32.cpp. The loop runs on fuel, and `none` means that the fuel
-- ran out.
use page_fault_os_for_risc_v.Prelude.{
  ap, ◌||◌, eq→==, ◌∙◌, ℕ, zero, suc, ◌^◌, ◌<◌, ◌≡◌, ◌==◌, not, ◌&&◌, if◌then◌else◌, true, false,
  refl, arith, Bool-cases, inl, inr, Option, none, some, ltb, leb,
}
use page_fault_os_for_risc_v.Fs.Fat.{Bool, Fat, tf_get_fat_entry, tf_set_fat_entry}
use page_fault_os_for_risc_v.Fs.Fat.Cache.{IsCached}
use page_fault_os_for_risc_v.Fs.Fat.Table.{
  tf_get_fat_entry-value, fat_entry, tf_set_fat_entry_lem, tf_set_fat_entry-IsCached,
  tf_set_fat_entry-layout,
}
use page_fault_os_for_risc_v.Fs.Fat.Search.{Same, get-Same}

abbrev pub eoc32 : ℕ
eoc32 = 0x0fffffff

-- fat_entry < TF_MARK_EOC32, and not `fat_entry <= 2`
abbrev pub goes_on : ℕ → Bool
goes_on entry = ltb entry eoc32 && not (leb entry 2)

-- The cluster whose entry is cleared next is the one that was read last, not the one before it.
unfoldable pub free_loop : (fuel cluster entry : ℕ) → Fat → Option Fat
free_loop zero cluster entry f = none
free_loop (suc n) cluster entry f =
    let (next, g) = tf_get_fat_entry entry (tf_set_fat_entry cluster 0 f) in
    let rest = free_loop n next next g in if goes_on entry then rest else some f

unfoldable pub tf_free_clusterchain : (fuel cluster : ℕ) → Fat → Option Fat
tf_free_clusterchain n cluster f =
    let (entry, g) = tf_get_fat_entry cluster f in free_loop n cluster entry g

-- The table of `g` is that of `f` with zeros at the clusters of `p`.
pub record Cleared (p : ℕ → Bool) (f g : Fat) : Type 0 where
  pub cached : IsCached g
  pub entries : (d : ℕ) → d < 2 ^ 28 → fat_entry g d ≡ (if p d then 0 else fat_entry f d)
  pub reserved : g.info.reserved_sectors ≡ f.info.reserved_sectors

module _ (f : Fat) (h : IsCached f) (r : f.info.reserved_sectors < 2 ^ 16) (c : ℕ) (k : c < 2 ^ 28)
    (e : ℕ) (q : e < 2 ^ 28) where
  abbrev once : Fat
  once = tf_set_fat_entry c 0 f

  once-Cleared : Cleared (λ d. d == c) f (tf_get_fat_entry e once).1
  once-Cleared =
      let l = tf_set_fat_entry-layout f h c 0 (omega arith) (omega arith) in
      let w : IsCached once = tf_set_fat_entry-IsCached f h c 0 (omega arith) (omega arith) in
      let s : Same once (tf_get_fat_entry e once).1 = get-Same once w (omega (arith, l.0)) e q in
      record {
        cached = s.cached;
        entries = λ d b.
            s.entries d b
            ∙ tf_set_fat_entry_lem f h c 0 (omega arith) (omega arith) d (omega arith);
        reserved = s.reserved ∙ l.0;
      }

  once-value : (tf_get_fat_entry e once).0 ≡ (if e == c then 0 else fat_entry f e)
  once-value =
      let l = tf_set_fat_entry-layout f h c 0 (omega arith) (omega arith) in
      let w : IsCached once = tf_set_fat_entry-IsCached f h c 0 (omega arith) (omega arith) in
      tf_get_fat_entry-value once w e (omega (arith, l.0))
      ∙ tf_set_fat_entry_lem f h c 0 (omega arith) (omega arith) e (omega arith)

goes_on-lt : (e : ℕ) → goes_on e ≡ true → e < 2 ^ 28
goes_on-lt e h = ground arith

unchanged : (p : ℕ → Bool) (f : Fat) → IsCached f → ((d : ℕ) → p d ≡ false) → Cleared p f f
unchanged p f h z = record { cached = h; entries = λ d b. rw (z d); reserved = refl }

-- The loop from a cluster that is its own next entry clears it and stops.
loop_self :
    (n e : ℕ) (f : Fat)
    → IsCached f
    → f.info.reserved_sectors < 2 ^ 16
    → (g : Fat) × (free_loop (suc (suc n)) e e f ≡ some g) × Cleared (λ d. goes_on e && d == e) f g
unfolding free_loop
loop_self n e f h r = elim (Bool-cases (goes_on e)) [
  | inl y ↦
      let b = goes_on-lt e y in
      let z : (tf_get_fat_entry e (once f h r e b e b)).0 ≡ 0 =
        once-value f h r e b e b ∙ rw (eq→== e e refl) refl in
      (
        (tf_get_fat_entry e (tf_set_fat_entry e 0 f)).1,
        rw (y, z) refl,
        rw y (once-Cleared f h r e b e b),
      )
  | inr x ↦ (f, rw x refl, rw x (unchanged (λ _. false) f h (λ d. refl)))
]

-- What the second round finds: the entry of `e`, unless that was cleared in the first.
abbrev pub second : Fat → (c e : ℕ) → ℕ
second f c e = if e == c then 0 else fat_entry f e

-- The clusters that the loop clears: `c`, and the one after the next.
abbrev pub freed : (c e next : ℕ) → ℕ → Bool
freed c e next d = goes_on e && (d == c || goes_on next && d == next)

Cleared-both :
    (f g h : Fat) (c e next : ℕ)
    → goes_on e ≡ true
    → Cleared (λ d. d == c) f g
    → Cleared (λ d. goes_on next && d == next) g h
    → Cleared (freed c e next) f h
Cleared-both f g h c e next y a b = record {
  cached = b.cached;
  entries = λ d k. ground (arith, a.entries d k, b.entries d k);
  reserved = b.reserved ∙ a.reserved;
}

loop_from :
    (n c e : ℕ) (f : Fat)
    → IsCached f
    → f.info.reserved_sectors < 2 ^ 16
    → c < 2 ^ 28
    → (g : Fat) × (free_loop (suc (suc (suc n))) c e f ≡ some g)
      × Cleared (freed c e (second f c e)) f g
loop_from n c e f h r k = elim (Bool-cases (goes_on e)) [
  | inl y ↦
      let b = goes_on-lt e y in
      let o = once-Cleared f h r c k e b in
      let (g, run, x) =
        loop_self n (tf_get_fat_entry e (tf_set_fat_entry c 0 f)).0
          (tf_get_fat_entry e (tf_set_fat_entry c 0 f)).1 o.cached (omega (arith, o.reserved)) in
      let v : (tf_get_fat_entry e (tf_set_fat_entry c 0 f)).0 ≡ second f c e =
        once-value f h r c k e b in
      (
        g,
        unfold free_loop in rw y run,
        Cleared-both f (tf_get_fat_entry e (tf_set_fat_entry c 0 f)).1 g c e (second f c e) y o
            (rw (← v) x),
      )
  | inr x ↦
      (f, unfold free_loop in rw x refl, unchanged (freed c e (second f c e)) f h (λ d. rw x refl))
]

Cleared-Same : (p : ℕ → Bool) (f g h : Fat) → Same f g → Cleared p g h → Cleared p f h
Cleared-Same p f g h s x = record {
  cached = x.cached;
  entries = λ d k. x.entries d k ∙ ap (λ v. if p d then 0 else v) (s.entries d k);
  reserved = x.reserved ∙ s.reserved;
}

second-Same : (f g : Fat) → Same f g → (c e : ℕ) → goes_on e ≡ true → second g c e ≡ second f c e
second-Same f g s c e y = ap (λ v. if e == c then 0 else v) (s.entries e (goes_on-lt e y))

freed-Same :
    (f g : Fat) → Same f g → (c e d : ℕ) → freed c e (second g c e) d ≡ freed c e (second f c e) d
freed-Same f g s c e d = elim (Bool-cases (goes_on e)) [
  | inl y ↦ ap (λ v. freed c e v d) (second-Same f g s c e y)
  | inr x ↦ rw x refl
]

Cleared-ext : (p q : ℕ → Bool) (f g : Fat) → ((d : ℕ) → p d ≡ q d) → Cleared p f g → Cleared q f g
Cleared-ext p q f g same x = record {
  cached = x.cached;
  entries = λ d k. x.entries d k ∙ ap (λ t. if t then 0 else fat_entry f d) (same d);
  reserved = x.reserved;
}

-- tf_free_clusterchain() ends within three rounds, whatever the table holds. It clears the entry of
-- its argument and the one two places on in the chain, and no other: the entry that it reads last
-- is the one that it clears next, so every other cluster of a longer chain keeps its entry; and it
-- clears none if the argument's entry ends the chain.
pub tf_free_clusterchain_lem :
    (n c : ℕ) (f : Fat)
    → IsCached f
    → f.info.reserved_sectors < 2 ^ 16
    → c < 2 ^ 28
    → (g : Fat) × (tf_free_clusterchain (suc (suc (suc n))) c f ≡ some g)
      × Cleared (freed c (fat_entry f c) (second f c (fat_entry f c))) f g
unfolding tf_free_clusterchain
tf_free_clusterchain_lem n c f h r k =
    let s = get-Same f h r c k in
    let v = tf_get_fat_entry-value f h c (omega arith) in
    let (g, run, x) =
      loop_from n c (tf_get_fat_entry c f).0 (tf_get_fat_entry c f).1 s.cached
        (omega (arith, s.reserved)) k in
    (
      g,
      run,
      Cleared-Same _ f (tf_get_fat_entry c f).1 g s (
          Cleared-ext _ _ _ g
            (λ d.
              freed-Same f (tf_get_fat_entry c f).1 s c (tf_get_fat_entry c f).0 d
              ∙ ap (λ e. freed c e (second f c e) d) v)
            x),
    )
