-- ===== src/Fs/Fat/Read/Place.antt =====
-- Where a byte of a file is on the volume.
use page_fault_os_for_risc_v.Prelude.{ℕ, ◌+◌, ◌-◌, ◌*◌, ◌/◌, ◌%◌, ◌^◌, ◌<◌, ◌≡◌, ◌∙◌, ap, arith}
use native.Mathlib.Nat.{
  div-add-mod', mod-lt, mul-add-div_right, mul-add-mod_self_right, div-eq_of_lt, mod-eq_of_lt,
}
use page_fault_os_for_risc_v.Fs.Fat.{Fat, tf_first_sector}
use page_fault_os_for_risc_v.Fs.Fat.Cache.{contents}
use page_fault_os_for_risc_v.Fs.Fat.Seek.{TfFile, cluster_size}
use page_fault_os_for_risc_v.Fs.Fat.Seek.Laws.{nth, Links}

-- The handle is at its position, in a chain that goes on so far.
pub record Stands (f : Fat) (fp : TfFile) : Type 0 where
  pub index : fp.current_cluster_idx ≡ fp.pos / cluster_size f
  pub cluster : fp.current_cluster ≡ nth f fp.start_cluster fp.current_cluster_idx
  pub byte : fp.current_byte ≡ fp.pos % cluster_size f
  pub links : Links f fp.start_cluster fp.current_cluster_idx

-- Byte `p` of the file whose chain starts at a cluster.
abbrev pub byte_at : Fat → (start p : ℕ) → ℕ
byte_at f start p =
    let o = p % cluster_size f in
    contents f ((tf_first_sector f (nth f start (p / cluster_size f)) + o / 512) % 2 ^ 32) (o % 512)

-- Places in the sector of `pos` are in its cluster.
module _ (n pos j : ℕ) (some_sector : 0 < n) (inside : j < 512 - pos % (n * 512) % 512) where
  sum_lt : pos % (n * 512) + j < n * 512
  sum_lt = let lt = mod-lt pos {m = n * 512} (omega arith) in omega (arith, lt)

  split : pos + j ≡ pos / (n * 512) * (n * 512) + (pos % (n * 512) + j)
  split = let e = div-add-mod' pos (n * 512) in omega (arith, e)

  pub same_cluster : (pos + j) / (n * 512) ≡ pos / (n * 512)
  same_cluster =
      ap (λ x. x / (n * 512)) split
      ∙ mul-add-div_right {m = n * 512} (omega arith) (pos / (n * 512)) (pos % (n * 512) + j)
      ∙ (let z = div-eq_of_lt sum_lt in omega (arith, z))

  pub next_byte : (pos + j) % (n * 512) ≡ pos % (n * 512) + j
  next_byte =
      ap (λ x. x % (n * 512)) split
      ∙ mul-add-mod_self_right (pos / (n * 512)) (n * 512) (pos % (n * 512) + j)
      ∙ mod-eq_of_lt sum_lt
