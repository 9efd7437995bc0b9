-- ===== src/Fs/Fat/Read/Laws.antt =====
-- What tf_fread() reads.
use page_fault_os_for_risc_v.Prelude.{
  ◌&&◌, leb, ltb, true, ℕ, suc, ◌+◌, ◌-◌, ◌*◌, ◌/◌, ◌%◌, ◌^◌, ◌<◌, ◌≤◌, ◌≡◌, ◌∙◌, refl, ap, sym,
  false, some, ◌==◌, arith,
}
use native.Mathlib.Nat.{mod-lt}
use page_fault_os_for_risc_v.Fs.Fat.{tf_first_sector, Fat, tf_fetch}
use page_fault_os_for_risc_v.Fs.Fat.Cache.{
  IsCached, Reachable, contents, tf_fetch-layout, tf_fetch-IsCached, tf_fetch-buffer,
}
use page_fault_os_for_risc_v.Fs.Fat.Table.{fat_entry-tf_fetch}
use page_fault_os_for_risc_v.Fs.Fat.Search.{Same, Same-trans}
use page_fault_os_for_risc_v.Fs.Fat.Seek.{TfFile, cluster_size}
use page_fault_os_for_risc_v.Fs.Fat.Seek.Laws.{
  nth, Links, Links-Same, nth-Same, placed, tf_fseek_lem,
}
use page_fault_os_for_risc_v.Fs.Fat.Read.Place.{Stands, byte_at, same_cluster, next_byte}
use page_fault_os_for_risc_v.Fs.Fat.Read.{
  Got, is_negative, from_buffer, sector_of, chunk, append, tf_fread_loop, tf_fread,
}

-- tf_fetch() leaves the volume as it was.
fetch-Same :
    (f : Fat)
    → IsCached f
    → f.info.reserved_sectors < 2 ^ 16
    → (s : ℕ) → Reachable s
    → Same f (tf_fetch s f)
fetch-Same f h r s q =
    let l = tf_fetch-layout f s in
    record {
      cached = tf_fetch-IsCached f h s q;
      entries = λ d lt. fat_entry-tf_fetch f h s q d (omega arith);
      reserved = l.0;
      total = l.1;
      per_cluster = l.2;
    }

module _ (f : Fat) (h : IsCached f) (r : f.info.reserved_sectors < 2 ^ 16) (fp : TfFile)
    (st : Stands f fp) (small : f.info.sectors_per_cluster ≤ 64) (before : ℕ → ℕ) (m : ℕ)
    (room : suc m ≤ 512 - fp.current_byte % 512) where
  abbrev pub end : ℕ
  end = fp.pos + suc m

  abbrev fetched : Fat
  fetched = tf_fetch (sector_of f fp) f

  not_negative : 0 < f.info.sectors_per_cluster → is_negative fp ≡ false
  not_negative pos =
      let n = f.info.sectors_per_cluster in
      let lt = mod-lt fp.pos {m = n * 512} (omega arith) in let b = st.byte in ground (arith, lt)

  chunk-all :
      0 < f.info.sectors_per_cluster → end < fp.size → fp.size < 2 ^ 32 → chunk fp (suc m) ≡ suc m
  chunk-all pos b c = rw (not_negative pos) (ground arith)

  abbrev pub read : ℕ → ℕ
  read = append (λ j. 0) 0 (suc m) (from_buffer before fp (contents f (sector_of f fp)))

  read-byte_at :
      0 < f.info.sectors_per_cluster
      → (j : ℕ) → j < suc m
      → read j ≡ byte_at f fp.start_cluster (fp.pos + j)
  read-byte_at pos j lt =
      let n = f.info.sectors_per_cluster in
      let inside : j < 512 - fp.pos % cluster_size f % 512 =
        let b = st.byte in omega (arith, room, ap (λ x. x % 512) b) in
      let e1 = same_cluster n fp.pos j pos inside in
      let e2 = next_byte n fp.pos j pos inside in
      let e3 : (fp.pos % cluster_size f + j) / 512 ≡ fp.pos % cluster_size f / 512 = omega arith in
      let e4 : (fp.pos % cluster_size f + j) % 512 ≡ fp.pos % cluster_size f % 512 + j =
        omega arith in
      let c : fp.current_cluster ≡ nth f fp.start_cluster (fp.pos / cluster_size f) =
        st.cluster ∙ ap (nth f fp.start_cluster) st.index in
      let here : (leb 0 j && ltb j (0 + suc m)) ≡ true = ground arith in
      let back : j - 0 ≡ j = omega arith in
      rw (not_negative pos, here, back, e1, e2, e3, e4)
        (λ i.
          contents f ((tf_first_sector f (c i) + st.byte i / 512) % 2 ^ 32) (st.byte i % 512 + j))

  -- On a volume with 1 to 64 sectors in a cluster: a read of one byte or more by a handle that stands in a
  -- chain, which ends in the sector and before the end
  -- of the file, below 4 GB: all bytes are read, and they are those of the file from the position of the
  -- handle on, found by following the chain from its start; the handle then stands behind them, and
  -- the volume is as it was.
  pub tf_fread_lem :
      0 < f.info.sectors_per_cluster
      → end < fp.size
      → fp.size < 2 ^ 32
      → Reachable (sector_of f fp)
      → Links f fp.start_cluster (end / cluster_size f)
      → (got : Got) × (tf_fread before (suc m) fp f ≡ some got)
        × (got.count ≡ suc m)
        × ((j : ℕ) → j < suc m → got.bytes j ≡ byte_at f fp.start_cluster (fp.pos + j))
        × (got.file.pos ≡ end)
        × Stands f got.file
        × Same f got.fat
  unfolding tf_fread tf_fread_loop
  tf_fread_lem pos b c q l =
      let s = fetch-Same f h r (sector_of f fp) q in
      let same_size : cluster_size fetched ≡ cluster_size f = ap (λ n. n * 512) s.per_cluster in
      let idx : end / cluster_size fetched ≡ end / cluster_size f = ap (λ n. end / n) same_size in
      let here : fp.current_cluster ≡ nth fetched fp.start_cluster fp.current_cluster_idx =
        st.cluster ∙ sym (nth-Same f fetched s fp.current_cluster_idx fp.start_cluster st.links) in
      let l' : Links fetched fp.start_cluster (end / cluster_size fetched) =
        rw idx (Links-Same f fetched s (end / cluster_size f) fp.start_cluster l) in
      let (g, run, t) =
        tf_fseek_lem fetched s.cached (omega (arith, s.reserved, r)) fp here end b l' in
      let nothing : suc m - suc m ≡ 0 = omega arith in
      let some_bytes : (suc m == 0) ≡ false = ground arith in
      let front : 0 + suc m ≡ suc m = omega arith in
      let file : TfFile = placed fetched (end / cluster_size fetched) end fp in
      (
        record { count = suc m; bytes = read; file = file; fat = g },
        rw
            (
              chunk-all pos b c,
              run,
              nothing,
              some_bytes,
              front,
              tf_fetch-buffer f h (sector_of f fp) q,
            )
            refl,
        refl,
        read-byte_at pos,
        refl,
        record {
          index = idx;
          cluster = rw idx (nth-Same f fetched s (end / cluster_size f) fp.start_cluster l);
          byte = ap (λ n. end % n) same_size;
          links = rw idx l;
        },
        Same-trans s t,
      )
