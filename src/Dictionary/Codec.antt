-- ===== src/Dictionary/Codec.antt =====
-- What `decode` reads of what `encode` wrote.
use gerber.Prelude.{
  false, ℕ, ◌<◌, ◌≤◌, ◌≡◌, ◌≢◌, refl, sym, ap₂, All-append, [], ◌∷◌, map, none, arith, length,
  length-append, All,
}
use gerber.Zmm.Strings.{Lacks}
use gerber.Tools.Url.{is_plain}
use gerber.Dictionary.{
  Element, Dictionary, merge, clone, escape, encode_element, encode_rest, encode_with, encode,
  decode_loop, decode,
}
use gerber.Dictionary.Lookup.{IsDistinct}
use gerber.Dictionary.Equality.{clone_lem}
use gerber.Dictionary.Round.{filled, IsBytes, rest-loop, element_Lacks}

element_length : (el : Element) → 0 < length (encode_element b'=' el)
unfolding encode_element
element_length el = omega (arith, length-append (escape el.key) (b'=' ∷ escape el.value))

-- Each element takes a byte at least, so the length of the text is fuel enough.
rest_length : (els : Dictionary) → length els ≤ length (encode_rest b'&' b'=' els)
unfolding encode_rest
rest_length [] = omega arith
rest_length (el ∷ els) =
    omega
      (arith, rest_length els, length-append (encode_element b'=' el) (encode_rest b'&' b'=' els))

-- Decoding what `encode` wrote merges the elements, in order, with null strings read as "".
pub decode-encode-merge :
    (d e : Dictionary) → IsBytes d → decode (encode d) e ≡ merge (map filled d) e
unfolding decode encode encode_with
decode-encode-merge [] e h = unfold decode_loop merge in refl
decode-encode-merge (el ∷ els) e h =
    rest-loop _ el els e
      (omega (
        arith,
        rest_length els,
        element_length el,
        length-append (encode_element b'=' el) (encode_rest b'&' b'=' els),
      ))
      h

abbrev pub HasText : Dictionary → Type 0
HasText = All (λ el. (el.key ≢ none) × (el.value ≢ none))

filled_lem : (d : Dictionary) → HasText d → map filled d ≡ d
filled_lem [] h = refl
filled_lem (el ∷ d) h = ap₂ ◌∷◌ (ground (arith, h.0)) (filled_lem d h.1)

-- A dictionary of distinct keys, with no null string and made of bytes, is read back from its
-- encoding, order included.
pub decode-encode :
    (d : Dictionary) → IsBytes d → HasText d → IsDistinct d → decode (encode d) [] ≡ d
unfolding clone
decode-encode d b t h = rw (decode-encode-merge d [] b, filled_lem d t) (clone_lem d h)

rest_Lacks :
    (sep : ℕ) (els : Dictionary)
    → is_plain sep ≡ false
    → sep ≢ b'%'
    → sep ≢ b'='
    → sep ≢ b'&'
    → IsBytes els
    → Lacks sep (encode_rest b'&' b'=' els)
unfolding encode_rest
rest_Lacks sep [] p q r a h = tt
rest_Lacks sep (el ∷ els) p q r a h = (
  (λ e. a (sym e)),
  All-append _ (encode_element b'=' el) (encode_rest b'&' b'=' els)
      (element_Lacks sep el p q r h.0.0 h.0.1) (rest_Lacks sep els p q r a h.1),
)

-- A character that is escaped and is no separator does not stand in an encoded dictionary.
pub encode-Lacks :
    (sep : ℕ) (d : Dictionary)
    → is_plain sep ≡ false
    → sep ≢ b'%'
    → sep ≢ b'='
    → sep ≢ b'&'
    → IsBytes d
    → Lacks sep (encode d)
unfolding encode encode_with
encode-Lacks sep [] p q r a h = tt
encode-Lacks sep (el ∷ els) p q r a h =
    All-append _ (encode_element b'=' el) (encode_rest b'&' b'=' els)
      (element_Lacks sep el p q r h.0.0 h.0.1) (rest_Lacks sep els p q r a h.1)
