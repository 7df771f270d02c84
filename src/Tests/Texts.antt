-- ===== src/Tests/Texts.antt =====
-- The texts at concrete inputs.
use gerber.Prelude.{◌≡◌, refl, true, [], ◌∷◌, some, arith}
use gerber.Prelude.Int.{negsuc}
use gerber.Zmm.Strings.{Bytes, c_str, equals}
use gerber.Zmm.Number.{print_int, to_int}
use gerber.Zmm.Number.RoundTrip.{to_int-print_int}
use gerber.Tools.Split.{split_string}
use gerber.Tools.Split.Cut.{parts, split_string-parts}
use gerber.Dictionary.{Dictionary, encode, decode}
use gerber.Dictionary.Codec.{decode-encode}
use gerber.Resource.{Resource, encode_resource, decode_resource}
use gerber.Resource.RoundTrip.{IsStored, IsStorable, decode_resource-encode_resource}

-- "rtsp:*:a:*"
to_int-print_int_example : to_int (some (print_int (negsuc 41))) ≡ negsuc 41
to_int-print_int_example = to_int-print_int (negsuc 41) (omega arith)

abbrev some_bytes : Bytes
some_bytes = 65 ∷ 38 ∷ 255 ∷ []

-- ",a,b,", split at the commas.
abbrev with_commas : Bytes
with_commas = 44 ∷ 97 ∷ 44 ∷ 44 ∷ 98 ∷ 44 ∷ []

split_string-parts_example : split_string with_commas 44 true ≡ parts 44 true with_commas
split_string-parts_example =
    split_string-parts with_commas 44 true (omega arith)
      (omega arith, (omega arith, (omega arith, (omega arith, (omega arith, (omega arith, tt))))))

-- "a" is "b&", and the empty key has the value "=".
abbrev pairs : Dictionary
pairs =
    record { key = some (97 ∷ []); value = some (98 ∷ 38 ∷ []) }
    ∷ record { key = some []; value = some (61 ∷ []) }
    ∷ []

pairs-IsStored : IsStored pairs
unfolding equals c_str
pairs-IsStored = record {
  bytes = (((omega arith, tt), (omega arith, (omega arith, tt))), ((tt, (omega arith, tt)), tt));
  has_text = ((ground arith, ground arith), ((ground arith, ground arith), tt));
  distinct = (refl, (refl, tt));
}

decode-encode_example : decode (encode pairs) [] ≡ pairs
decode-encode_example =
    decode-encode pairs pairs-IsStored.bytes pairs-IsStored.has_text pairs-IsStored.distinct

abbrev resource : Resource
resource = record { handler_type = negsuc 2; attributes = pairs; parameters = []; options = [] }

resource-IsStorable : IsStorable resource
resource-IsStorable = record {
  int32 = omega arith;
  attributes = pairs-IsStored;
  parameters = record { bytes = tt; has_text = tt; distinct = tt };
  options = record { bytes = tt; has_text = tt; distinct = tt };
}

decode_resource-encode_resource_example : decode_resource (encode_resource resource) ≡ some resource
decode_resource-encode_resource_example =
    decode_resource-encode_resource resource resource-IsStorable
