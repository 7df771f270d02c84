-- ===== src/Resource/RoundTrip.antt =====
-- What `CdsResource::decode` reads of what `CdsResource::encode` wrote.
use gerber.Prelude.{ℕ, ◌≡◌, ◌≢◌, refl, ap, ◌∙◌, true, false, [], ◌∷◌, ◌++◌, some, arith, All-append}
use gerber.Zmm.Strings.{Bytes, Lacks}
use gerber.Zmm.Number.{print_int, to_int}
use gerber.Zmm.Number.RoundTrip.{IsInt32, print_int-Lacks, to_int-print_int}
use gerber.Tools.Url.{is_plain}
use gerber.Tools.Split.Cut.{cut, cut-append, cut-Lacks, trim_last, parts, split_string-parts}
use gerber.Dictionary.{Dictionary, encode, decode}
use gerber.Dictionary.Lookup.{IsDistinct}
use gerber.Dictionary.Round.{IsBytes}
use gerber.Dictionary.Codec.{HasText, decode-encode, encode-Lacks}
use gerber.Resource.{Resource, part_sep, encode_resource, decode_parts, decode_resource}

-- A dictionary that its encoding keeps.
pub record IsStored (d : Dictionary) : Type 0 where
  pub bytes : IsBytes d
  pub has_text : HasText d
  pub distinct : IsDistinct d

pub record IsStorable (r : Resource) : Type 0 where
  pub int32 : IsInt32 r.handler_type
  pub attributes : IsStored r.attributes
  pub parameters : IsStored r.parameters
  pub options : IsStored r.options

-- The four parts, of which the code drops an empty last one, and then an empty third one.
cut_encoded :
    (h a p o : Bytes)
    → Lacks part_sep h
    → Lacks part_sep a
    → Lacks part_sep p
    → Lacks part_sep o
    → cut part_sep (h ++ part_sep ∷ (a ++ part_sep ∷ (p ++ part_sep ∷ o))) ≡ h ∷ a ∷ p ∷ o ∷ []
cut_encoded h a p o lh la lp lo = rw (
  cut-append part_sep h (a ++ part_sep ∷ (p ++ part_sep ∷ o)) lh,
  cut-append part_sep a (p ++ part_sep ∷ o) la,
  cut-append part_sep p o lp,
  cut-Lacks part_sep o lo,
)

decode_nil : decode [] [] ≡ []
unfolding decode
decode_nil = refl

abbrev built : Bytes → Bytes → Bytes → Bytes → Resource
built h a p o = record {
  handler_type = to_int (some h);
  attributes = decode a [];
  parameters = decode p [];
  options = decode o [];
}

trim_four :
    (h a p o : Bytes)
    → decode_parts (trim_last (trim_last (h ∷ a ∷ p ∷ o ∷ []))) ≡ some (built h a p o)
unfolding trim_last decode_parts decode
trim_four h a p (x ∷ o) = refl
trim_four h a (x ∷ p) [] = refl
trim_four h a [] [] = refl

built_lem :
    (r : Resource)
    → IsStorable r
    → built
        (print_int r.handler_type)
        (encode r.attributes)
        (encode r.parameters)
        (encode r.options)
      ≡ r
built_lem r v = λ i. record {
  handler_type = to_int-print_int r.handler_type v.int32 i;
  attributes = read r.attributes v.attributes i;
  parameters = read r.parameters v.parameters i;
  options = read r.options v.options i;
}
  where
    read : (d : Dictionary) → IsStored d → decode (encode d) [] ≡ d
    read d k = decode-encode d k.bytes k.has_text k.distinct

Lacks-join :
    (c : ℕ) (a b : Bytes) → part_sep ≢ c → Lacks c a → Lacks c b → Lacks c (a ++ part_sep ∷ b)
Lacks-join c a b h k l = All-append _ a (part_sep ∷ b) k (h, l)

plain_false : (is_plain part_sep ≡ false) × (is_plain 0 ≡ false)
unfolding is_plain
plain_false = (refl, refl)

no_part_sep : (d : Dictionary) → IsStored d → Lacks part_sep (encode d)
no_part_sep d k =
    encode-Lacks part_sep d plain_false.0 (omega arith) (omega arith) (omega arith) k.bytes

no_nul : (d : Dictionary) → IsStored d → Lacks 0 (encode d)
no_nul d k = encode-Lacks 0 d plain_false.1 (omega arith) (omega arith) (omega arith) k.bytes

encode_resource-Lacks : (r : Resource) → IsStorable r → Lacks 0 (encode_resource r)
unfolding encode_resource
encode_resource-Lacks r v =
    Lacks-join 0 (print_int r.handler_type) _ (omega arith)
      (print_int-Lacks 0 r.handler_type (omega arith))
      (Lacks-join 0 (encode r.attributes) _ (omega arith) (no_nul r.attributes v.attributes) (
        Lacks-join 0 (encode r.parameters) _ (omega arith) (no_nul r.parameters v.parameters)
          (no_nul r.options v.options)))

parts_encoded :
    (r : Resource)
    → IsStorable r
    → cut part_sep (encode_resource r)
      ≡ print_int r.handler_type ∷ encode r.attributes ∷ encode r.parameters ∷ encode r.options ∷ []
unfolding encode_resource
parts_encoded r v =
    cut_encoded (print_int r.handler_type) (encode r.attributes) (encode r.parameters)
      (encode r.options) (print_int-Lacks part_sep r.handler_type (omega arith))
      (no_part_sep r.attributes v.attributes) (no_part_sep r.parameters v.parameters)
      (no_part_sep r.options v.options)

-- A resource of an `int` handler type, whose dictionaries have distinct keys, no null strings and
-- bytes only, is read back from its text, whichever of its dictionaries are empty.
pub decode_resource-encode_resource :
    (r : Resource) → IsStorable r → decode_resource (encode_resource r) ≡ some r
decode_resource-encode_resource r v =
    unfold decode_resource in
    rw
      (split_string-parts (encode_resource r) part_sep true (omega arith)
        (encode_resource-Lacks r v))
      (unfold parts in
        rw (parts_encoded r v) (
          trim_four (print_int r.handler_type) (encode r.attributes) (encode r.parameters)
            (encode r.options)
          ∙ ap some (built_lem r v)))
