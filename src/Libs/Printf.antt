-- ===== src/Libs/Printf.antt =====
-- kern/libs/printf.c: what the functions pass to consputc(), as a list of characters.
pub mod Roundtrip
use page_fault_os_for_risc_v.Prelude.{
  ℕ, zero, suc, ◌+◌, ◌-◌, ◌*◌, ◌/◌, ◌%◌, ◌^◌, Bool, true, false, Option, none, some, List, [], ◌∷◌,
  ◌++◌, ◌||◌, ltb, leb, ◌==◌, if◌then◌else◌, ◌&&◌,
}

-- "0123456789abcdef"[d]
unfoldable pub digit : ℕ → ℕ
digit d = if ltb d 10 then b'0' + d else b'a' + d - 10

abbrev pub Buffer : Type 0
Buffer = ℕ → ℕ

abbrev pub put_char : ℕ → ℕ → Buffer → Buffer
put_char i c buf j = if j == i then c else buf j

-- The loop that fills `buf`, with one round for each place from `i` on; `none` is a write behind them.
-- It returns the place behind the last digit.
unfoldable pub put_digits : (places i base x : ℕ) → Buffer → Option (ℕ × Buffer)
put_digits zero i base x buf = none
put_digits (suc n) i base x buf =
    let filled = put_char i (digit (x % base)) buf in
    let rest = put_digits n (suc i) base (x / base) filled in
    if x / base == 0 then some (suc i, filled) else rest

-- while (--i >= 0) consputc(buf[i]);
unfoldable pub backwards : ℕ → Buffer → List ℕ
backwards zero buf = []
backwards (suc i) buf = buf i ∷ backwards i buf

abbrev pub buffer_size : ℕ
buffer_size = 16

-- buf[i++] = '-' and the output, if there is a place left.
unfoldable pub put_sign : (is_negative : Bool) → Option (ℕ × Buffer) → Option (List ℕ)
put_sign s none = none
put_sign false (some (i, buf)) = some (backwards i buf)
put_sign true (some (i, buf)) =
    if ltb i buffer_size then some (backwards (suc i) (put_char i b'-' buf)) else none

-- num < 0, for the word of 32 bits that an int is.
abbrev pub is_negative : ℕ → Bool
is_negative num = leb (2 ^ 31) num

abbrev pub magnitude : (num : ℕ) (sign : Bool) → ℕ
magnitude num sign = if sign && is_negative num then (2 ^ 32 - num) % 2 ^ 32 else num

-- `none` is a write behind the buffer.
unfoldable pub printint : (num base : ℕ) (sign : Bool) → Option (List ℕ)
printint num base sign =
    put_sign (sign && is_negative num) (put_digits buffer_size 0 base (magnitude num sign) λ _. 0)

unfoldable pub ptr_digits : (rounds x : ℕ) → List ℕ
ptr_digits zero x = []
ptr_digits (suc n) x = digit (x / 2 ^ 60) ∷ ptr_digits n (x * 16 % 2 ^ 64)

unfoldable pub printptr : ℕ → List ℕ
printptr x = b'0' ∷ b'x' ∷ ptr_digits 16 x

-- printf() gets 'd' and 'x' an int, 'p' a pointer, 's' a string or a null pointer.
pub data Arg : Type 0 where
  int : ℕ → Arg
  pointer : ℕ → Arg
  string : Option (List ℕ) → Arg

-- "(null)"
abbrev pub null_text : List ℕ
null_text = b'(' ∷ b'n' ∷ b'u' ∷ b'l' ∷ b'l' ∷ b')' ∷ []

abbrev pub appended : Option (List ℕ) → Option (List ℕ) → Option (List ℕ)
appended none rest = none
appended (some s) none = none
appended (some s) (some t) = some (s ++ t)

-- What the directive with letter `c` prints of an argument; an argument of another type is undefined.
unfoldable pub directive : (c : ℕ) → Arg → Option (List ℕ)
directive c (int n) =
    if c == b'd' then printint n 10 true else if c == b'x' then printint n 16 true else none
directive c (pointer p) = if c == b'p' then some (printptr p) else none
directive c (string none) = if c == b's' then some null_text else none
directive c (string (some s)) = if c == b's' then some s else none

abbrev pub takes_argument : ℕ → Bool
takes_argument c = c == b'd' || c == b'x' || c == b'p' || c == b's'

-- The loop of printf() over the characters of the format, `after_percent` if the last one was a '%' that
-- starts a directive.
unfoldable pub printf_from : (after_percent : Bool) (fmt : List ℕ) → List Arg → Option (List ℕ)
printf_from a [] args = some []
printf_from false (c ∷ cs) args =
    let rest = printf_from false cs args in
    let inner = printf_from true cs args in
    if c == b'%' then inner else appended (some (c ∷ [])) rest
printf_from true (c ∷ cs) [] =
    let rest = printf_from false cs [] in
    if takes_argument c
    then none
    else appended (some (if c == b'%' then b'%' ∷ [] else b'%' ∷ c ∷ [])) rest
printf_from true (c ∷ cs) (a ∷ args) =
    let rest = printf_from false cs args in
    let same = printf_from false cs (a ∷ args) in
    if takes_argument c
    then appended (directive c a) rest
    else appended (some (if c == b'%' then b'%' ∷ [] else b'%' ∷ c ∷ [])) same

abbrev pub printf : (fmt : List ℕ) → List Arg → Option (List ℕ)
printf fmt args = printf_from false fmt args
