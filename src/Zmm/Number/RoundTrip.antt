-- ===== src/Zmm/Number/RoundTrip.antt =====
-- A printed `int` is read back.
use gerber.Prelude.{
  ℕ, zero, suc, ◌+◌, ◌/◌, ◌%◌, ◌^◌, ◌<◌, ◌≤◌, ◌≡◌, refl, subst, ◌∙◌, [], ◌∷◌, some, arith, ltb,
  Bool-cases, inl, inr, All, All-mono,
}
use gerber.Prelude.Int.{ℤ, pos, negsuc}
use gerber.Zmm.Strings.{Bytes, Lacks}
use gerber.Zmm.Strings.Search.{c_str-Lacks}
use gerber.Zmm.Number.{
  print_loop, print_nat, print_int, scan_digits, skip_blank, signed_digits, negated, clamp_long,
  strtol, to_int32, whole, to_int,
}

abbrev pub IsDigit : ℕ → Type 0
IsDigit c = (b'0' ≤ c) × (c ≤ b'9')

print-IsDigit : (fuel n : ℕ) (out : Bytes) → All IsDigit out → All IsDigit (print_loop fuel n out)
unfolding print_loop
print-IsDigit zero n out h = h
print-IsDigit (suc fuel) n out h =
    ground (arith, print-IsDigit fuel (n / 10) ((b'0' + n % 10) ∷ out))

-- Reading the last digit of `n` behind the digits before it gives `n`.
scan_last : (n : ℕ) (out : Bytes) → scan_digits ((b'0' + n % 10) ∷ out) (n / 10) ≡ scan_digits out n
unfolding scan_digits
scan_last n out = ground arith

scan_first : (n : ℕ) (out : Bytes) → n < 10 → scan_digits ((b'0' + n) ∷ out) 0 ≡ scan_digits out n
unfolding scan_digits
scan_first n out h = ground arith

scan-print :
    (fuel n : ℕ) (out : Bytes)
    → n < fuel
    → scan_digits (print_loop fuel n out) 0 ≡ scan_digits out n
unfolding print_loop
scan-print zero n out h = absurd (omega arith)
scan-print (suc fuel) n out h =
    ground
      (arith, scan-print fuel (n / 10) ((b'0' + n % 10) ∷ out), scan_last n out, scan_first n out)

print_nat-IsDigit : (n : ℕ) → All IsDigit (print_nat n)
unfolding print_nat
print_nat-IsDigit n = print-IsDigit (suc n) n [] tt

scan-print_nat : (n : ℕ) → scan_digits (print_nat n) 0 ≡ (n, [])
unfolding print_nat
scan-print_nat n = scan-print (suc n) n [] (omega arith) ∙ (unfold scan_digits in refl)

blank_digit : (c : ℕ) (s : Bytes) → b'-' ≤ c → skip_blank (c ∷ s) ≡ c ∷ s
unfolding skip_blank
blank_digit c s h = ground arith

sign_digit :
    (c : ℕ) (s : Bytes)
    → IsDigit c
    → signed_digits (c ∷ s) ≡ (pos (scan_digits (c ∷ s) 0).0, (scan_digits (c ∷ s) 0).1)
unfolding signed_digits
sign_digit c s h = ground arith

sign_minus :
    (s : Bytes) → signed_digits (b'-' ∷ s) ≡ (negated (scan_digits s 0).0, (scan_digits s 0).1)
unfolding signed_digits
sign_minus s = refl

pub print_loop_cons :
    (fuel n c : ℕ) (out : Bytes) → (d : ℕ) × (s : Bytes) × (print_loop fuel n (c ∷ out) ≡ d ∷ s)
unfolding print_loop
print_loop_cons zero n c out = (c, out, refl)
print_loop_cons (suc fuel) n c out = elim (Bool-cases (ltb n 10)) [
  | inl e ↦ (b'0' + n, c ∷ out, rw e)
  | inr e ↦
      let (d, s, p) = print_loop_cons fuel (n / 10) (b'0' + n % 10) (c ∷ out) in (d, s, rw e p)
]

print_nat_cons : (n : ℕ) → (d : ℕ) × (s : Bytes) × (print_nat n ≡ d ∷ s)
unfolding print_nat print_loop
print_nat_cons n = elim (Bool-cases (ltb n 10)) [
  | inl e ↦ (b'0' + n, [], rw e)
  | inr e ↦ let (d, s, p) = print_loop_cons n (n / 10) (b'0' + n % 10) [] in (d, s, rw e p)
]

-- The range of an `int`.
abbrev pub IsInt32 : ℤ → Type 0
IsInt32 (pos n) = n < 2 ^ 31
IsInt32 (negsuc n) = n < 2 ^ 31

signed-print_nat : (n : ℕ) → signed_digits (skip_blank (print_nat n)) ≡ (pos n, [])
signed-print_nat n =
    let (d, s, e) = print_nat_cons n in
    let digits : All IsDigit (d ∷ s) = subst (All IsDigit) e (print_nat-IsDigit n) in
    let scanned : scan_digits (d ∷ s) 0 ≡ (n, []) =
      subst (λ t. scan_digits t 0 ≡ (n, [])) e (scan-print_nat n) in
    rw (e, blank_digit d s (omega arith), sign_digit d s digits.0, scanned)

signed-print_int : (z : ℤ) → signed_digits (skip_blank (print_int z)) ≡ (z, [])
unfolding print_int
signed-print_int (pos n) = signed-print_nat n
signed-print_int (negsuc n) =
    rw (blank_digit b'-' (print_nat (suc n)) (omega arith), sign_minus, scan-print_nat (suc n))
      (unfold negated in refl)

clamp_small : (z : ℤ) → IsInt32 z → clamp_long z ≡ z
unfolding clamp_long
clamp_small (pos n) h = ground arith
clamp_small (negsuc n) h = ground arith

int32_small : (z : ℤ) → IsInt32 z → to_int32 z ≡ z
unfolding to_int32
int32_small (pos n) h = ground arith
int32_small (negsuc n) h = ground arith

strtol-print_int : (z : ℤ) → IsInt32 z → strtol (print_int z) ≡ (z, [])
unfolding strtol
strtol-print_int z h = rw (signed-print_int z, clamp_small z h)

-- A printed number holds digits, and a minus in front of a negative one.
abbrev pub IsNumeric : ℕ → Type 0
IsNumeric c = (b'-' ≤ c) × (c ≤ b'9')

print_int-IsNumeric : (z : ℤ) → All IsNumeric (print_int z)
unfolding print_int
print_int-IsNumeric (pos n) = All-mono (λ c h. (omega arith, h.1)) _ (print_nat-IsDigit n)
print_int-IsNumeric (negsuc n) =
    ((omega arith, omega arith), All-mono (λ c h. (omega arith, h.1)) _ (print_nat-IsDigit (suc n)))

pub print_int-Lacks : (c : ℕ) (z : ℤ) → ¬ IsNumeric c → Lacks c (print_int z)
print_int-Lacks c z h = All-mono (λ x k e. h (rw e at k)) _ (print_int-IsNumeric z)

-- Every `int` is read back from its decimal text.
pub to_int-print_int : (z : ℤ) → IsInt32 z → to_int (some (print_int z)) ≡ z
unfolding to_int
to_int-print_int z h =
    rw (c_str-Lacks (print_int z) (print_int-Lacks 0 z (omega arith)), strtol-print_int z h)
      (unfold whole in int32_small z h)
