-- ===== src/Zmm/Number.antt =====
-- Decimal numbers: what the code uses of `sprintf("%d")` and `strtol`, and `String::toLong` and
-- `toInt` of zmm/strings.cc.
pub mod RoundTrip
use gerber.Prelude.{
  ℕ, zero, suc, ◌+◌, ◌-◌, ◌*◌, ◌/◌, ◌%◌, ◌^◌, Bool, ◌&&◌, ◌||◌, [], ◌∷◌, none, some, ltb, leb, ◌==◌,
  if◌then◌else◌,
}
use gerber.Prelude.Int.{ℤ, pos, negsuc}
use gerber.Zmm.Strings.{Bytes, ZString, c_str}

-- The decimal digits of `n` in front of `out`; more rounds than `n` are enough fuel.
unfoldable pub print_loop : ℕ → ℕ → Bytes → Bytes
print_loop zero n out = out
print_loop (suc fuel) n out =
    let more = print_loop fuel (n / 10) ((b'0' + n % 10) ∷ out) in
    if ltb n 10 then (b'0' + n) ∷ out else more

unfoldable pub print_nat : ℕ → Bytes
unfolding print_loop
print_nat n = print_loop (suc n) n []

-- `sprintf(dest, "%d", x)`.
unfoldable pub print_int : ℤ → Bytes
print_int (pos n) = print_nat n
print_int (negsuc n) = b'-' ∷ print_nat (suc n)

-- The digits in front, as a number behind `acc`, and what follows them.
unfoldable pub scan_digits : Bytes → ℕ → ℕ × Bytes
scan_digits [] acc = (acc, [])
scan_digits (c ∷ s) acc =
    let more = scan_digits s (acc * 10 + (c - b'0')) in
    if leb b'0' c && leb c b'9' then more else (acc, c ∷ s)

unfoldable pub is_space : ℕ → Bool
is_space c = c == b' ' || leb 9 c && leb c 13

unfoldable pub skip_blank : Bytes → Bytes
unfolding is_space
skip_blank [] = []
skip_blank (c ∷ s) = if is_space c then skip_blank s else c ∷ s

-- `long` saturates.
unfoldable pub clamp_long : ℤ → ℤ
clamp_long (pos n) = if ltb n (2 ^ 63) then pos n else pos (2 ^ 63 - 1)
clamp_long (negsuc n) = if ltb n (2 ^ 63) then negsuc n else negsuc (2 ^ 63 - 1)

-- - n
unfoldable pub negated : ℕ → ℤ
negated zero = pos 0
negated (suc n) = negsuc n

unfoldable pub signed_digits : Bytes → ℤ × Bytes
signed_digits [] = (pos 0, [])
signed_digits (c ∷ s) =
    if c == b'-'
    then (negated (scan_digits s 0).0, (scan_digits s 0).1)
    else if c == b'+'
    then (pos (scan_digits s 0).0, (scan_digits s 0).1)
    else (pos (scan_digits (c ∷ s) 0).0, (scan_digits (c ∷ s) 0).1)

-- `strtol(s, &endptr, 10)` on the bytes before the NUL: the value, and the text at `endptr`. The
-- caller tells a text without digits by what is left.
unfoldable pub strtol : Bytes → ℤ × Bytes
unfolding skip_blank signed_digits clamp_long scan_digits negated
strtol s = let r = signed_digits (skip_blank s) in (clamp_long r.0, r.1)

-- `(int)`, from 64 to 32 bits.
unfoldable pub to_int32 : ℤ → ℤ
to_int32 (pos n) = let w = n % 2 ^ 32 in if ltb w (2 ^ 31) then pos w else negsuc (2 ^ 32 - w - 1)
to_int32 (negsuc n) =
    let w = n % 2 ^ 32 in if ltb w (2 ^ 31) then negsuc w else pos (2 ^ 32 - w - 1)

-- `if (*endptr) return 0;` and the casts.
unfoldable pub whole : ℤ × Bytes → ℤ
unfolding to_int32
whole (value, []) = to_int32 value
whole (value, c ∷ s) = pos 0

-- `toInt`, which is `toLong` with its cast to `int`: 0 for a null string and for a text with
-- something behind the number.
unfoldable pub to_int : ZString → ℤ
to_int none = pos 0
to_int (some s) = whole (strtol (c_str s))
