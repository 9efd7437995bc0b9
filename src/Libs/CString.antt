-- ===== src/Libs/CString.antt =====
-- kern/libs/string.c over a memory of bytes. A function that writes returns the new memory, and one
-- that takes a length or a count recurs on it: `int n` below zero does what 0 does in strncpy and
-- safestrcpy, and is not modelled in wnstr, snstr and wcsncmp, whose callers pass 13 or less. A loop
-- that only a NUL stops runs on fuel, and `none` means that the fuel ran out. Plain `char` is
-- unsigned on RISC-V.
pub mod Move
pub mod Compare
pub mod Copy
pub mod Search
use page_fault_os_for_risc_v.Prelude.{
  ℕ, zero, suc, ◌+◌, ◌-◌, ◌*◌, ◌%◌, Bool, true, false, ◌&&◌, ◌||◌, not, Option, none, some, ltb,
  leb, ◌==◌, if◌then◌else◌,
}
use page_fault_os_for_risc_v.Prelude.Int.{ℤ, pos, sub_ℕ, is_zero}

abbrev pub Bytes : Type 0
Bytes = ℕ → ℕ

unfoldable pub write : Bytes → ℕ → ℕ → Bytes
write m a v b = if a == b then v else m b

-- for(i = 0; i < n; i++) cdst[i] = c;
unfoldable pub memset_from : (rounds i : ℕ) → Bytes → (dst c : ℕ) → Bytes
memset_from zero i m dst c = m
memset_from (suc n) i m dst c = memset_from n (i + 1) (write m (dst + i) (c % 256)) dst c

unfoldable pub memset : Bytes → (dst c n : ℕ) → Bytes
memset m dst c n = memset_from n 0 m dst c

unfoldable pub memcmp : Bytes → (s1 s2 n : ℕ) → ℤ
memcmp m s1 s2 zero = pos 0
memcmp m s1 s2 (suc n) =
    let rest = memcmp m (s1 + 1) (s2 + 1) n in if m s1 == m s2 then rest else sub_ℕ (m s1) (m s2)

-- while(n-- > 0) *--d = *--s;
unfoldable pub copy_down : ℕ → Bytes → (d s : ℕ) → Bytes
copy_down zero m d s = m
copy_down (suc n) m d s = copy_down n (write m (d - 1) (m (s - 1))) (d - 1) (s - 1)

-- while(n-- > 0) *d++ = *s++;
unfoldable pub copy_up : ℕ → Bytes → (d s : ℕ) → Bytes
copy_up zero m d s = m
copy_up (suc n) m d s = copy_up n (write m d (m s)) (d + 1) (s + 1)

unfoldable pub memmove : Bytes → (dst src n : ℕ) → Bytes
memmove m d s n =
    if ltb s d && ltb d (s + n) then copy_down n m (d + n) (s + n) else copy_up n m d s

unfoldable pub memcpy : Bytes → (dst src n : ℕ) → Bytes
memcpy = memmove

unfoldable pub strncmp : Bytes → (p q n : ℕ) → ℤ
strncmp m p q zero = pos 0
strncmp m p q (suc n) =
    let rest = strncmp m (p + 1) (q + 1) n in
    if not (m p == 0) && (m p == m q) then rest else sub_ℕ (m p) (m q)

-- while(n-- > 0) *s++ = 0;
unfoldable pub pad : ℕ → Bytes → (s : ℕ) → Bytes
pad zero m s = m
pad (suc n) m s = pad n (write m s 0) (s + 1)

unfoldable pub strncpy : Bytes → (s t n : ℕ) → Bytes
strncpy m s t zero = m
strncpy m s t (suc n) =
    let m' = write m s (m t) in
    let rest = strncpy m' (s + 1) (t + 1) n in if m t == 0 then pad n m' (s + 1) else rest

unfoldable pub to_low_case : ℕ → ℕ
to_low_case c = if leb b'A' c && leb c b'Z' then c + 32 else c

-- The loop of strncasecmp, at `n` > 0.
unfoldable pub strncasecmp_loop : Bytes → (p1 p2 n : ℕ) → ℤ
strncasecmp_loop m p1 p2 zero = pos 0
strncasecmp_loop m p1 p2 (suc n) =
    let result : ℤ = sub_ℕ (to_low_case (m p1)) (to_low_case (m p2)) in
    let rest = strncasecmp_loop m (p1 + 1) (p2 + 1) n in
    if is_zero result then (if (m p1 == 0) || (n == 0) then result else rest) else result

unfoldable pub strncasecmp : Bytes → (s1 s2 n : ℕ) → ℤ
strncasecmp m s1 s2 n = if (s1 == s2) || (n == 0) then pos 0 else strncasecmp_loop m s1 s2 n

-- while(--n > 0 && (*s++ = *t++) != 0); *s = 0;   with `n` rounds at most
unfoldable pub safestrcpy_loop : ℕ → Bytes → (s t : ℕ) → Bytes
safestrcpy_loop zero m s t = write m s 0
safestrcpy_loop (suc n) m s t =
    let m' = write m s (m t) in
    let rest = safestrcpy_loop n m' (s + 1) (t + 1) in if m t == 0 then write m' (s + 1) 0 else rest

unfoldable pub safestrcpy : Bytes → (s t n : ℕ) → Bytes
safestrcpy m s t zero = m
safestrcpy m s t (suc n) = safestrcpy_loop n m s t

unfoldable pub strlen_from : (fuel : ℕ) → Bytes → (s n : ℕ) → Option ℕ
strlen_from zero m s n = none
strlen_from (suc f) m s n =
    let rest = strlen_from f m s (n + 1) in if m (s + n) == 0 then some n else rest

unfoldable pub strlen : (fuel : ℕ) → Bytes → (s : ℕ) → Option ℕ
strlen f m s = strlen_from f m s 0

-- The null pointer is 0.
unfoldable pub strrchr_from : (fuel : ℕ) → Bytes → (s c ans : ℕ) → Option ℕ
strrchr_from zero m s c ans = none
strrchr_from (suc f) m s c ans =
    let rest = strrchr_from f m (s + 1) c (if m s == c then s else ans) in
    if m s == 0 then some ans else rest

unfoldable pub strrchr : (fuel : ℕ) → Bytes → (s c : ℕ) → Option ℕ
strrchr f m s c = strrchr_from f m s c 0

unfoldable pub strchr : (fuel : ℕ) → Bytes → (s c : ℕ) → Option ℕ
strchr zero m s c = none
strchr (suc f) m s c =
    let rest = strchr f m (s + 1) c in
    if m s == 0 then some 0 else if m s == c then some s else rest

-- A wide character: two bytes, the low one first.
abbrev pub wide : Bytes → ℕ → ℕ
wide m a = m a + 256 * m (a + 1)

-- Only the low byte of each wide character is written.
unfoldable pub wnstr : Bytes → (dst src len : ℕ) → Bytes
wnstr m dst src zero = write (write m dst 0) (dst + 1) 0
wnstr m dst src (suc n) =
    let rest = wnstr (write m dst (m src)) (dst + 2) (src + 1) n in
    if m src == 0 then write (write m dst 0) (dst + 1) 0 else rest

unfoldable pub snstr : Bytes → (dst src len : ℕ) → Bytes
snstr m dst src zero = m
snstr m dst src (suc n) =
    let rest = snstr (write m dst (wide m src % 256)) (dst + 1) (src + 2) n in
    if wide m src == 0 then pad n m dst else rest

unfoldable pub wcsncmp_from : Bytes → (s1 s2 len : ℕ) → ℤ → ℤ
wcsncmp_from m s1 s2 zero ret = ret
wcsncmp_from m s1 s2 (suc n) ret =
    let new : ℤ = sub_ℕ (wide m s1) (wide m s2) in
    let rest = wcsncmp_from m (s1 + 2) (s2 + 2) n new in
    if wide m s1 == 0 then ret else if is_zero new then rest else new

unfoldable pub wcsncmp : Bytes → (s1 s2 len : ℕ) → ℤ
wcsncmp m s1 s2 len = wcsncmp_from m s1 s2 len (pos 0)
