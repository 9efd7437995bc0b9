-- ===== src/Proc/Arguments/Stack.antt =====
-- Where exec() puts the strings of the arguments.
use page_fault_os_for_risc_v.Prelude.{
  subst, ℕ, zero, suc, ◌+◌, ◌*◌, ◌%◌, ◌^◌, ◌<◌, ◌≤◌, ◌≡◌, ◌≢◌, refl, ap, ◌∙◌, Option, some, none,
  false, ltb, ◌==◌, arith, eq→==, Bool-cases, inl, inr,
}
use page_fault_os_for_risc_v.Kernel.{Kernel}
use page_fault_os_for_risc_v.Kernel.Run.{Cmd, ok, Status, done, failed, >>=-eq-ok}
use page_fault_os_for_risc_v.Mm.Layout.{page_size}
use page_fault_os_for_risc_v.Mm.Bytes.{get_byte}
use page_fault_os_for_risc_v.Mm.Copy.{at, copyout}
use page_fault_os_for_risc_v.Libs.CString.{Bytes, strlen, strlen_from}
use page_fault_os_for_risc_v.Proc.{set_at}
use page_fault_os_for_risc_v.Proc.Arguments.{Pushed, below, answer, on_done, arg_length, push_args}

strlen_from-bound : (f : ℕ) (m : Bytes) (s n r : ℕ) → strlen_from f m s n ≡ some r → r < n + f
unfolding strlen_from
strlen_from-bound zero m s n r e = cc
strlen_from-bound (suc f) m s n r e = elim (Bool-cases (m (s + n) == 0)) [
  | inl z ↦ let e1 = rw z at e in let e2 : n ≡ r = cc in omega (arith, e2)
  | inr nz ↦ let e1 = rw nz at e in let b = strlen_from-bound f m s (n + 1) r e1 in omega (arith, b)
]

answer-ok : (o : Option ℕ) (k : Kernel) (l : ℕ) (t : Kernel) → answer o k ≡ ok l t → o ≡ some l
answer-ok none k l t e = cc
answer-ok (some n) k l t e = cc

-- A string of an argument is at most a page long.
arg_length-bound :
    (s : ℕ) (k : Kernel) (l : ℕ) (t : Kernel) → arg_length s k ≡ ok l t → l ≤ page_size
unfolding arg_length strlen
arg_length-bound s k l t e =
    let b = strlen_from-bound (page_size + 1) (get_byte k.mem) s 0 l (answer-ok _ k l t e) in
    omega (arith, b)

on_done-ok :
    {A : Type 0} (m : Cmd Kernel (Option A)) (r : Status) (k : Kernel) (v : A) (t : Kernel)
    → on_done m r k ≡ ok (some v) t
    → m k ≡ ok (some v) t
on_done-ok m failed k v t e = cc
on_done-ok m done k v t e = e

-- What the loop has pushed when it goes from `u` to `v`.
pub record PushedTo (stackbase : ℕ) (argv : ℕ → ℕ) (u v : Pushed) : Type 0 where
  pub more : u.argc ≤ v.argc
  pub last : argv v.argc ≡ 0
  pub given : (j : ℕ) → u.argc ≤ j → j < v.argc → argv j ≢ 0
  pub kept : (j : ℕ) → j < u.argc → v.ustack j ≡ u.ustack j
  pub inside :
      (j : ℕ)
      → u.argc ≤ j
      → j < v.argc
      → (stackbase ≤ v.ustack j) × (v.ustack j < u.sp) × (v.ustack j % 16 ≡ 0)
  pub falling : (j : ℕ) → u.argc ≤ j → suc j < v.argc → v.ustack (suc j) < v.ustack j
  pub sp_inside : (stackbase ≤ v.sp) × (v.sp ≤ u.sp)
  pub sp_aligned : u.sp % 16 ≡ 0 → v.sp % 16 ≡ 0

below-inside :
    (sp l stackbase : ℕ)
    → 2 * page_size ≤ stackbase
    → stackbase ≤ sp
    → sp < 2 ^ 63
    → l ≤ page_size
    → stackbase ≤ below sp (l + 1)
    → (below sp (l + 1) < sp) × (below sp (l + 1) % 16 ≡ 0)
below-inside sp l b lo mid hi s t = (omega arith, omega arith)

-- One argument and the ones after it.
PushedTo-suc :
    (stackbase s : ℕ) (argv : ℕ → ℕ) (u v : Pushed)
    → argv u.argc ≢ 0
    → stackbase ≤ s
    → s < u.sp
    → s % 16 ≡ 0
    → PushedTo stackbase argv
        (record { argc = u.argc + 1; sp = s; ustack = set_at u.ustack u.argc s })
        v
    → PushedTo stackbase argv u v
PushedTo-suc b s argv u v nz lo hi al p =
    let mine : v.ustack u.argc ≡ s =
      p.kept u.argc (omega arith) ∙ rw (eq→== u.argc u.argc refl) refl in
    let more = p.more in
    record {
      more = omega (arith, more);
      last = p.last;
      given = λ j l h. elim (Bool-cases (j == u.argc)) [
        | inl e ↦ let e' : j ≡ u.argc = ground arith in rw e' nz
        | inr n ↦ p.given j (ground arith) h
      ];
      kept =
          λ j l. let n : (j == u.argc) ≡ false = ground arith in p.kept j (omega arith) ∙ rw n refl;
      inside = λ j l h. elim (Bool-cases (j == u.argc)) [
        | inl e ↦ let e' : j ≡ u.argc = ground arith in rw (e', mine) (lo, hi, al)
        | inr n ↦ let (x, y, z) = p.inside j (ground arith) h in (x, omega (arith, y), z)
      ];
      falling = λ j l h. elim (Bool-cases (j == u.argc)) [
        | inl e ↦
            let e' : j ≡ u.argc = ground arith in
            let (x, y, z) = p.inside (suc j) (omega (arith, e')) h in
            let m : v.ustack j ≡ s = rw e' mine in omega (arith, y, m)
        | inr n ↦ p.falling j (ground arith) h
      ];
      sp_inside = let (x, y) = p.sp_inside in (x, omega (arith, y));
      sp_aligned = λ _. p.sp_aligned al;
    }

PushedTo-same :
    (stackbase : ℕ) (argv : ℕ → ℕ) (u v : Pushed)
    → argv u.argc ≡ 0
    → stackbase ≤ u.sp
    → u ≡ v
    → PushedTo stackbase argv u v
PushedTo-same b argv u v z le e = subst (PushedTo b argv u) e (record {
  more = omega arith;
  last = z;
  given = λ j l h. absurd (omega (arith, l, h));
  kept = λ j l. refl;
  inside = λ j l h. absurd (omega (arith, l, h));
  falling = λ j l h. absurd (omega (arith, l, h));
  sp_inside = (le, omega arith);
  sp_aligned = λ h. h;
})

-- The loop of exec() over the arguments, from a stack pointer in a stack that lies two pages above 0 or higher:
-- if it does not go to the label `bad`, it has taken every argument up to the null pointer and no
-- more than it may; each string starts in the stack, at a multiple of 16, below the one before it, and
-- the stack pointer ends in the stack.
pub push_args_lem :
    (n pt stackbase : ℕ) (argv : ℕ → ℕ) (u v : Pushed) (k t : Kernel)
    → 2 * page_size ≤ stackbase
    → stackbase ≤ u.sp
    → u.sp < 2 ^ 63
    → push_args n pt stackbase argv u k ≡ ok (some v) t
    → PushedTo stackbase argv u v × (v.argc ≤ u.argc + n)
unfolding push_args
push_args_lem zero pt b argv u v k t lo mid hi e = elim (Bool-cases (argv u.argc == 0)) [
  | inl z ↦
      let e1 = rw z at e in
      let same : u ≡ v = cc in
      (PushedTo-same b argv u v (ground arith) mid same, omega (arith, ap (λ x. x.argc) same))
  | inr nz ↦ absurd (let e1 = rw nz at e in cc)
]
push_args_lem (suc n) pt b argv u v k t lo mid hi e = elim (Bool-cases (argv u.argc == 0)) [
  | inl z ↦
      let e1 = rw z at e in
      let same : u ≡ v = cc in
      (PushedTo-same b argv u v (ground arith) mid same, omega (arith, ap (λ x. x.argc) same))
  | inr nz ↦
      let e1 = rw nz at e in
      let (l, k1, el, e2) = >>=-eq-ok (arg_length (argv u.argc) k) _ e1 in
      let sp : ℕ = below u.sp (l + 1) in
      elim (Bool-cases (ltb sp b)) [
        | inl over ↦ absurd (let e3 = rw over at e2 in cc)
        | inr room ↦
            let e3 = rw room at e2 in
            let (r, k2, ec, e4) = >>=-eq-ok (copyout pt sp (at (argv u.argc)) (l + 1) k1) _ e3 in
            let u' : Pushed = record {
              argc = u.argc + 1;
              sp = sp;
              ustack = set_at u.ustack u.argc sp;
            } in
            let le : b ≤ sp = ground arith in
            let (under, al) = below-inside u.sp l b lo mid hi (arg_length-bound _ _ l _ el) le in
            let (p, few) =
              push_args_lem n pt b argv u' v k2 t lo le (omega (arith, under, hi))
                (on_done-ok _ r k2 v t e4) in
            (PushedTo-suc b sp argv u v (ground arith) le under al p, omega (arith, few))
      ]
]
