-- ===== src/Dictionary/Round.antt =====
-- A round of `decode` on what a round of `encode` wrote.
use mathlib.Core.Option
use gerber.Prelude.{
  false, ℕ, zero, suc, ◌+◌, ◌-◌, ◌<◌, ◌≡◌, ◌≢◌, refl, sym, ap, ap₂, ◌∙◌, append-nil, All-append,
  lt→ltb, [], ◌∷◌, ◌++◌, map, some, none, arith, append_assoc, length, length-append, All, drop,
  take-append,
}
use gerber.Zmm.Strings.{Bytes, ZString, Lacks, strchr}
use gerber.Zmm.Strings.Search.{strchr-append, strchr-none}
use gerber.Tools.Url.{is_plain, url_escape, url_unescape}
use gerber.Tools.Url.RoundTrip.{IsSafe, url_escape-IsSafe, url_unescape-url_escape}
use gerber.Dictionary.{
  Element, Dictionary, put, merge, escape, encode_element, encode_rest, decode_pair, decode_loop,
}

abbrev pub IsByte : ℕ → Type 0
IsByte c = c < 256

-- The text of a string, "" for a null one.
abbrev pub text : ZString → Bytes
text s = Option.get_or s []

abbrev pub filled : Element → Element
filled el = record { key = some (text el.key); value = some (text el.value) }

-- Keys and values are made of bytes.
abbrev pub IsBytes : Dictionary → Type 0
IsBytes = All (λ el. All IsByte (text el.key) × All IsByte (text el.value))

IsSafe-ne : (x sep : ℕ) → IsSafe x → is_plain sep ≡ false → sep ≢ b'%' → x ≢ sep
IsSafe-ne x sep a h k e = ground (arith, ap is_plain e)

IsSafe-Lacks :
    (sep : ℕ) (s : Bytes) → (is_plain sep ≡ false) → sep ≢ b'%' → All IsSafe s → Lacks sep s
IsSafe-Lacks sep [] h k a = tt
IsSafe-Lacks sep (x ∷ s) h k a = (IsSafe-ne x sep a.0 h k, IsSafe-Lacks sep s h k a.1)

escape-text : (s : ZString) → escape s ≡ url_escape (text s)
unfolding escape url_escape
escape-text none = refl
escape-text (some s) = refl

pub escape-Lacks :
    (sep : ℕ) (s : ZString)
    → is_plain sep ≡ false
    → sep ≢ b'%'
    → All IsByte (text s)
    → Lacks sep (escape s)
escape-Lacks sep s h k b =
    rw (escape-text s) (IsSafe-Lacks sep (url_escape (text s)) h k (url_escape-IsSafe (text s) b))

unescape-escape : (s : ZString) → All IsByte (text s) → url_unescape (escape s) ≡ text s
unescape-escape s b = rw (escape-text s) (url_unescape-url_escape (text s) b)

pub drop_past : (p : Bytes) (x : ℕ) (r : Bytes) → drop (length p + 1) (p ++ x ∷ r) ≡ r
drop_past [] x r = refl
drop_past (y ∷ p) x r =
    ap (λ n. drop n (y ∷ p ++ x ∷ r)) {y = suc (length p + 1)} (omega arith) ∙ drop_past p x r

value_length : (k v : Bytes) → length (k ++ b'=' ∷ v) - length k - 1 ≡ length v
value_length k v = omega (arith, length-append k (b'=' ∷ v))

-- What a round stores of an element, whatever follows it.
pair_stored :
    (k v rest : Bytes) (d : Dictionary)
    → decode_pair ((k ++ b'=' ∷ v) ++ rest) (length (k ++ b'=' ∷ v)) (some (length k)) d
      ≡ put (some (url_unescape k)) (some (url_unescape v)) d
unfolding decode_pair
pair_stored k v rest d = rw (
  lt→ltb (length k) (length (k ++ b'=' ∷ v)) (omega (arith, length-append k (b'=' ∷ v))),
  append_assoc k (b'=' ∷ v) rest,
  take-append k (b'=' ∷ v ++ rest),
  drop_past k b'=' (v ++ rest),
  value_length k v,
  take-append v rest,
)

amp_at : Bytes → ℕ
amp_at s = Option.get_or (strchr b'&' s) (length s)

loop_step :
    (fuel : ℕ) (s : Bytes) (d : Dictionary)
    → s ≢ []
    → decode_loop (suc fuel) s d
      ≡ decode_loop fuel (drop (amp_at s + 1) s) (decode_pair s (amp_at s) (strchr b'=' s) d)
unfolding decode_loop amp_at
loop_step fuel [] d h = absurd (h refl)
loop_step fuel (x ∷ s) d h = refl

pair_round :
    (k v rest more : Bytes) (fuel : ℕ) (d : Dictionary)
    → Lacks b'=' k
    → Lacks 0 k
    → amp_at ((k ++ b'=' ∷ v) ++ rest) ≡ length (k ++ b'=' ∷ v)
    → drop (length (k ++ b'=' ∷ v) + 1) ((k ++ b'=' ∷ v) ++ rest) ≡ more
    → decode_loop (suc fuel) ((k ++ b'=' ∷ v) ++ rest) d
      ≡ decode_loop fuel more (put (some (url_unescape k)) (some (url_unescape v)) d)
pair_round k v rest more fuel d eq nul amp left = rw (
  loop_step fuel ((k ++ b'=' ∷ v) ++ rest) d (pair_ne k v rest),
  amp,
  left,
  eq_found k v rest eq nul,
  pair_stored k v rest d,
)
  where
    pair_ne : (k v rest : Bytes) → (k ++ b'=' ∷ v) ++ rest ≢ []
    pair_ne [] v rest = λ e. cc
    pair_ne (x ∷ k) v rest = λ e. cc

    eq_found :
        (k v rest : Bytes)
        → Lacks b'=' k
        → Lacks 0 k
        → strchr b'=' ((k ++ b'=' ∷ v) ++ rest) ≡ some (length k)
    eq_found k v rest eq nul =
        rw (append_assoc k (b'=' ∷ v) rest) (strchr-append b'=' (omega arith) k (v ++ rest) nul eq)

amp_last : (s : Bytes) → Lacks b'&' s → amp_at (s ++ []) ≡ length s
unfolding amp_at
amp_last s h = rw (append-nil s, strchr-none b'&' (omega arith) s h)

amp_next : (s more : Bytes) → Lacks 0 s → Lacks b'&' s → amp_at (s ++ b'&' ∷ more) ≡ length s
unfolding amp_at
amp_next s more h k = rw (strchr-append b'&' (omega arith) s more h k)

pub element_Lacks :
    (sep : ℕ) (el : Element)
    → is_plain sep ≡ false
    → sep ≢ b'%'
    → sep ≢ b'='
    → All IsByte (text el.key)
    → All IsByte (text el.value)
    → Lacks sep (encode_element b'=' el)
unfolding encode_element
element_Lacks sep el p q r hk hv =
    All-append _ (escape el.key) (b'=' ∷ escape el.value) (escape-Lacks sep el.key p q hk)
      ((λ e. r (sym e)), escape-Lacks sep el.value p q hv)

drop_last : (s : Bytes) → drop (length s + 1) (s ++ []) ≡ []
drop_last [] = refl
drop_last (x ∷ s) =
    ap (λ n. drop n (x ∷ s ++ [])) {y = suc (length s + 1)} (omega arith) ∙ drop_last s

plain_false : (is_plain b'=' ≡ false) × (is_plain b'&' ≡ false) × (is_plain 0 ≡ false)
unfolding is_plain
plain_false = (refl, refl, refl)

decode_round :
    (fuel : ℕ) (el : Element) (rest more : Bytes) (d : Dictionary)
    → All IsByte (text el.key)
    → All IsByte (text el.value)
    → amp_at (encode_element b'=' el ++ rest) ≡ length (encode_element b'=' el)
    → drop (length (encode_element b'=' el) + 1) (encode_element b'=' el ++ rest) ≡ more
    → decode_loop (suc fuel) (encode_element b'=' el ++ rest) d
      ≡ decode_loop fuel more (put (some (text el.key)) (some (text el.value)) d)
unfolding encode_element
decode_round fuel el rest more d hk hv amp left =
    pair_round (escape el.key) (escape el.value) rest more fuel d
      (escape-Lacks b'=' el.key plain_false.0 (omega arith) hk)
      (escape-Lacks 0 el.key plain_false.2 (omega arith) hk) amp left
    ∙ ap₂ (λ a b. decode_loop fuel more (put (some a) (some b) d)) (unescape-escape el.key hk)
        (unescape-escape el.value hv)

pub loop_done : (fuel : ℕ) (d : Dictionary) → decode_loop fuel [] d ≡ d
unfolding decode_loop
loop_done zero d = refl
loop_done (suc fuel) d = refl

pub rest-loop :
    (fuel : ℕ) (el : Element) (els d : Dictionary)
    → length els < fuel
    → IsBytes (el ∷ els)
    → decode_loop fuel (encode_element b'=' el ++ encode_rest b'&' b'=' els) d
      ≡ merge (map filled (el ∷ els)) d
unfolding merge encode_rest
rest-loop zero el els d m h = absurd (omega arith)
rest-loop (suc fuel) el [] d m h =
    let s = encode_element b'=' el in
    decode_round fuel el [] [] d h.0.0 h.0.1
      (amp_last s (element_Lacks b'&' el plain_false.1 (omega arith) (omega arith) h.0.0 h.0.1))
      (drop_last s)
    ∙ loop_done fuel _
rest-loop (suc fuel) el (next ∷ els) d m h =
    let s = encode_element b'=' el in
    decode_round fuel el _ _ d h.0.0 h.0.1
      (amp_next s _ (element_Lacks 0 el plain_false.2 (omega arith) (omega arith) h.0.0 h.0.1)
        (element_Lacks b'&' el plain_false.1 (omega arith) (omega arith) h.0.0 h.0.1))
      (drop_past s b'&' _)
    ∙ rest-loop fuel next els _ (omega arith) h.1
