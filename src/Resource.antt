-- ===== src/Resource.antt =====
-- cds_resource.h and cds_resource.cc: a resource of a media object, and its text in the database.
pub mod RoundTrip
use gerber.Prelude.{ℕ, Bool, true, ◌&&◌, List, [], ◌∷◌, ◌++◌, Option, none, some, if◌then◌else◌}
use gerber.Prelude.Int.{ℤ, pos_part, neg_part}
use gerber.Prelude.{◌==◌}
use gerber.Zmm.Strings.{Bytes, ZString}
use gerber.Zmm.Number.{print_int, to_int}
use gerber.Tools.Split.{split_string}
use gerber.Dictionary.{
  Dictionary, put, get, remove, merge, clone, dictionary_equals, encode, decode,
}

-- `CdsResource`; `handler_type` is an `int`.
pub record Resource : Type 0 where
  pub handler_type : ℤ
  pub attributes : Dictionary
  pub parameters : Dictionary
  pub options : Dictionary

unfoldable pub make : ℤ → Resource
make handler_type = record {
  handler_type = handler_type;
  attributes = [];
  parameters = [];
  options = [];
}

unfoldable pub add_attribute : ZString → ZString → Resource → Resource
add_attribute name value r = record r { attributes = put name value r.attributes }

unfoldable pub remove_attribute : ZString → Resource → Resource
remove_attribute name r = record r { attributes = remove name r.attributes }

unfoldable pub merge_attributes : Dictionary → Resource → Resource
merge_attributes additional r = record r { attributes = merge additional r.attributes }

unfoldable pub add_parameter : ZString → ZString → Resource → Resource
add_parameter name value r = record r { parameters = put name value r.parameters }

unfoldable pub add_option : ZString → ZString → Resource → Resource
add_option name value r = record r { options = put name value r.options }

unfoldable pub get_attribute : ZString → Resource → ZString
get_attribute name r = get name r.attributes

unfoldable pub get_parameter : ZString → Resource → ZString
get_parameter name r = get name r.parameters

unfoldable pub get_option : ZString → Resource → ZString
get_option name r = get name r.options

unfoldable pub resource_equals : Resource → Resource → Bool
resource_equals r other =
    pos_part r.handler_type == pos_part other.handler_type
    && neg_part r.handler_type == neg_part other.handler_type
    && dictionary_equals r.attributes other.attributes
    && dictionary_equals r.parameters other.parameters
    && dictionary_equals r.options other.options

unfoldable pub clone_resource : Resource → Resource
clone_resource r = record {
  handler_type = r.handler_type;
  attributes = clone r.attributes;
  parameters = clone r.parameters;
  options = clone r.options;
}

-- `RESOURCE_PART_SEP`.
abbrev pub part_sep : ℕ
part_sep = b'~'

unfoldable pub encode_resource : Resource → Bytes
encode_resource r =
    print_int r.handler_type
    ++ part_sep
      ∷ (encode r.attributes ++ part_sep ∷ (encode r.parameters ++ part_sep ∷ encode r.options))

-- `none` is the exception, for a text of less than two or more than four parts.
unfoldable pub decode_parts : List Bytes → Option Resource
decode_parts [] = none
decode_parts (_ ∷ []) = none
decode_parts (handler ∷ attr ∷ []) = some (record {
  handler_type = to_int (some handler);
  attributes = decode attr [];
  parameters = [];
  options = [];
})
decode_parts (handler ∷ attr ∷ par ∷ []) = some (record {
  handler_type = to_int (some handler);
  attributes = decode attr [];
  parameters = decode par [];
  options = [];
})
decode_parts (handler ∷ attr ∷ par ∷ opt ∷ []) = some (record {
  handler_type = to_int (some handler);
  attributes = decode attr [];
  parameters = decode par [];
  options = decode opt [];
})
decode_parts (_ ∷ _ ∷ _ ∷ _ ∷ _ ∷ _) = none

unfoldable pub decode_resource : Bytes → Option Resource
unfolding decode_parts
decode_resource serial = decode_parts (split_string serial part_sep true)
