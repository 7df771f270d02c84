-- ===== src/Cds/Naming.antt =====
-- cds_objects.cc: `mapObjectType` and `remapObjectType`, the names of the object types.
use gerber.Prelude.{ℕ, Option, none, some, if◌then◌else◌, ◌+◌}
use gerber.Zmm.Strings.{Bytes, ZString, equals, strcmp_eq, c_str}
use gerber.Cds.Words.{
  container_word, item_word, active_item_word, external_url_word, internal_url_word,
}
use gerber.Prelude.{◌≡◌, refl}
use gerber.Zmm.Strings.{bytes_eq}
use gerber.Cds.{
  Class, container, item, active_item, external_url, internal_url, class_type, is_container,
  is_pure_item, is_active_item, is_external_url, is_internal_url,
}

-- `mapObjectType`; `none` is the exception.
unfoldable pub map_object_type : ℕ → Option Bytes
map_object_type type =
    if is_container type
    then some container_word
    else if is_pure_item type
    then some item_word
    else if is_active_item type
    then some active_item_word
    else if is_external_url type
    then some external_url_word
    else if is_internal_url type
    then some internal_url_word
    else none

-- `remapObjectType`; `none` is the exception.
unfoldable pub remap_object_type : ZString → Option ℕ
unfolding equals
remap_object_type name =
    if equals name (some container_word)
    then some 1
    else if equals name (some item_word)
    then some 2
    else if equals name (some active_item_word)
    then some (2 + 4)
    else if equals name (some external_url_word)
    then some (2 + 8)
    else if equals name (some internal_url_word)
    then some (2 + 8 + 16)
    else none

-- The type that the name of an object's type is read back as: that of an external URL for an
-- internal one.
abbrev pub named_type : Class → ℕ
named_type (internal_url _) = 2 + 8
named_type c = class_type c

-- Every object's type has a name, and the name is read back as the type, except that of an
-- internal URL, which is named and read back as an external one.
pub remap_object_type-map_object_type :
    (c : Class)
    → (name : Bytes) × (map_object_type (class_type c) ≡ some name)
      × (remap_object_type (some name) ≡ some (named_type c))
unfolding map_object_type remap_object_type class_type equals strcmp_eq c_str bytes_eq
remap_object_type-map_object_type (container _ _ _) = (_, refl, refl)
remap_object_type-map_object_type (item _) = (_, refl, refl)
remap_object_type-map_object_type (active_item _ _ _) = (_, refl, refl)
remap_object_type-map_object_type (external_url _) = (_, refl, refl)
remap_object_type-map_object_type (internal_url _) = (_, refl, refl)
