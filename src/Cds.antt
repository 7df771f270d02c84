-- ===== src/Cds.antt =====
-- cds_objects.h and cds_objects.cc: the objects of the content directory, which are containers and
-- four classes of items. The functions here stand for the virtual methods of all classes.
pub mod Equality
pub mod Validation
pub mod Copying
pub mod Naming
pub mod Words
use gerber.Prelude.{
  ℕ, Bool, true, false, ◌&&◌, ◌||◌, not, List, [], ◌∷◌, ◌++◌, Option, none, some, ◌==◌, ◌/◌, ◌%◌,
  if◌then◌else◌, map, ◌+◌,
}
use gerber.Prelude.Int.{ℤ, pos, negsuc, ◌==ℤ◌}
use gerber.Zmm.Strings.{Bytes, ZString, equals, string_ok, strcmp_eq, starts_with, c_str}
use gerber.Dictionary.{Dictionary, clone, dictionary_equals}
use gerber.Cds.Words.{
  octet_stream, object_item, object_active_item, object_container, http, container_word, item_word,
  active_item_word, external_url_word, internal_url_word,
}
use gerber.Resource.{Resource, clone_resource, resource_equals}

-- The members of `CdsItem`.
pub record Item : Type 0 where
  pub mime_type : ZString
  pub track_number : ℤ
  pub service_id : ZString

-- The class of an object, with the members that the class adds to `CdsObject`.
pub data Class : Type 0 where
  container : (update_id child_count autoscan_type : ℤ) → Class
  item : Item → Class
  active_item : Item → (action state : ZString) → Class
  external_url : Item → Class
  internal_url : Item → Class

-- `CdsObject`; `object_type` is a function of the class.
pub record CdsObject : Type 0 where
  pub id : ℤ
  pub ref_id : ℤ
  pub parent_id : ℤ
  pub title : ZString
  pub upnp_class : ZString
  pub location : ZString
  pub mtime : ℤ
  pub size_on_disk : ℤ
  pub virt : Bool
  pub object_flags : ℕ
  pub sort_priority : ℤ
  pub metadata : Dictionary
  pub auxdata : Dictionary
  pub resources : List Resource
  pub class : Class

-- The `OBJECT_TYPE_` bits that the constructors set.
unfoldable pub class_type : Class → ℕ
class_type (container _ _ _) = 1
class_type (item _) = 2
class_type (active_item _ _ _) = 2 + 4
class_type (external_url _) = 2 + 8
class_type (internal_url _) = 2 + 8 + 16

unfoldable pub object_type : CdsObject → ℕ
unfolding class_type
object_type o = class_type o.class

-- `type & mask`, for a mask of one bit.
abbrev pub has_bit : ℕ → ℕ → Bool
has_bit mask type = (type / mask) % 2 == 1

abbrev pub is_container : ℕ → Bool
is_container = has_bit 1

abbrev pub is_item : ℕ → Bool
is_item = has_bit 2

abbrev pub is_active_item : ℕ → Bool
is_active_item = has_bit 4

abbrev pub is_external_url : ℕ → Bool
is_external_url = has_bit 8

abbrev pub is_internal_url : ℕ → Bool
is_internal_url = has_bit 16

abbrev pub is_pure_item : ℕ → Bool
is_pure_item type = type == 2

abbrev pub invalid_object_id : ℤ
invalid_object_id = negsuc 332

abbrev pub mimetype_default : ZString
mimetype_default = some octet_stream

abbrev pub upnp_default_class_item : ZString
upnp_default_class_item = some object_item

abbrev pub upnp_default_class_active_item : ZString
upnp_default_class_active_item = some object_active_item

abbrev pub upnp_default_class_container : ZString
upnp_default_class_container = some object_container

-- `CdsObject::CdsObject`, with what the class' constructor adds.
unfoldable pub make : ZString → Class → CdsObject
make upnp_class class = record {
  id = invalid_object_id;
  ref_id = invalid_object_id;
  parent_id = invalid_object_id;
  title = none;
  upnp_class = upnp_class;
  location = none;
  mtime = pos 0;
  size_on_disk = pos 0;
  virt = false;
  object_flags = 1;
  sort_priority = pos 0;
  metadata = [];
  auxdata = [];
  resources = [];
  class = class;
}

abbrev pub make_item_part : Item
make_item_part = record { mime_type = mimetype_default; track_number = pos 0; service_id = none }

unfoldable pub make_item : CdsObject
unfolding make
make_item = make upnp_default_class_item (item make_item_part)

unfoldable pub make_active_item : CdsObject
unfolding make
make_active_item = make upnp_default_class_active_item (active_item make_item_part none none)

unfoldable pub make_external_url : CdsObject
unfolding make
make_external_url = make upnp_default_class_item (external_url make_item_part)

unfoldable pub make_internal_url : CdsObject
unfolding make
make_internal_url = make upnp_default_class_item (internal_url make_item_part)

unfoldable pub make_container : CdsObject
unfolding make
make_container = make upnp_default_class_container (container (pos 0) (negsuc 0) (pos 0))

-- `createObject`; `none` is the exception.
unfoldable pub create_object : ℕ → Option CdsObject
unfolding make_item make_active_item make_external_url make_internal_url make_container
create_object type =
    if is_container type
    then some make_container
    else if is_internal_url type
    then some make_internal_url
    else if is_external_url type
    then some make_external_url
    else if is_active_item type
    then some make_active_item
    else if is_item type
    then some make_item
    else none

-- What `copyTo` of each class stores in the members of the other object's class.
unfoldable pub copy_item : Item → Class → Class
copy_item part (container u c a) = container u c a
copy_item part (item _) = item part
copy_item part (active_item _ action state) = active_item part action state
copy_item part (external_url _) = external_url part
copy_item part (internal_url _) = internal_url part

unfoldable pub copy_active : ZString → ZString → Class → Class
copy_active action state (active_item part _ _) = active_item part action state
copy_active action state (container u c a) = container u c a
copy_active action state (item part) = item part
copy_active action state (external_url part) = external_url part
copy_active action state (internal_url part) = internal_url part

unfoldable pub copy_container : ℤ → Class → Class
copy_container update_id (container _ c a) = container update_id c a
copy_container update_id (item part) = item part
copy_container update_id (active_item part action state) = active_item part action state
copy_container update_id (external_url part) = external_url part
copy_container update_id (internal_url part) = internal_url part

unfoldable pub copy_class : Class → Class → Class
unfolding copy_item copy_active copy_container
copy_class (container update_id _ _) other = copy_container update_id other
copy_class (item part) other = copy_item part other
copy_class (active_item part action state) other = copy_active action state (copy_item part other)
copy_class (external_url part) other = copy_item part other
copy_class (internal_url part) other = copy_item part other

-- `copyTo`: the resources are added to those of the other object, the rest replaces what it has.
unfoldable pub copy_to : CdsObject → CdsObject → CdsObject
unfolding copy_class clone clone_resource
copy_to o obj = record {
  id = o.id;
  ref_id = o.ref_id;
  parent_id = o.parent_id;
  title = o.title;
  upnp_class = o.upnp_class;
  location = o.location;
  mtime = o.mtime;
  size_on_disk = o.size_on_disk;
  virt = o.virt;
  object_flags = o.object_flags;
  sort_priority = o.sort_priority;
  metadata = clone o.metadata;
  auxdata = clone o.auxdata;
  resources = obj.resources ++ map clone_resource o.resources;
  class = copy_class o.class obj.class;
}
