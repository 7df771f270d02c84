-- ===== src/Cds/Equality.antt =====
-- cds_objects.cc: `equals` of the classes.
use gerber.Prelude.{Bool, true, false, ◌&&◌, ◌||◌, not, List, [], ◌∷◌, Option, none, some, ◌==◌}
use gerber.Prelude.Int.{◌==ℤ◌}
use gerber.Zmm.Strings.{equals}
use gerber.Dictionary.{dictionary_equals}
use gerber.Resource.{Resource, resource_equals}
use gerber.Cds.{
  Item, Class, container, item, active_item, external_url, internal_url, CdsObject, has_bit,
}

abbrev pub is_restricted : CdsObject → Bool
is_restricted o = has_bit 1 o.object_flags

abbrev pub is_searchable : CdsObject → Bool
is_searchable o = has_bit 2 o.object_flags

abbrev bool_eq : Bool → Bool → Bool
bool_eq true b = b
bool_eq false b = not b

unfoldable pub resources_equal : List Resource → List Resource → Bool
unfolding resource_equals
resources_equal [] [] = true
resources_equal [] (_ ∷ _) = false
resources_equal (_ ∷ _) [] = false
resources_equal (r ∷ rs) (s ∷ ss) = resource_equals r s && resources_equal rs ss

-- `CdsObject::equals`.
unfoldable pub base_equals : CdsObject → CdsObject → Bool → Bool
unfolding equals resources_equal dictionary_equals
base_equals o obj exactly =
    o.id ==ℤ obj.id
    && o.parent_id ==ℤ obj.parent_id
    && bool_eq (is_restricted o) (is_restricted obj)
    && equals o.title obj.title
    && equals o.upnp_class obj.upnp_class
    && o.sort_priority ==ℤ obj.sort_priority
    && resources_equal o.resources obj.resources
    && dictionary_equals o.metadata obj.metadata
    && (not exactly
        || equals o.location obj.location
          && o.mtime ==ℤ obj.mtime
          && o.size_on_disk ==ℤ obj.size_on_disk
          && bool_eq o.virt obj.virt
          && dictionary_equals o.auxdata obj.auxdata
          && o.object_flags == obj.object_flags)

unfoldable pub item_equals : Item → Item → Bool
unfolding equals
item_equals a b =
    equals a.mime_type b.mime_type
    && a.track_number ==ℤ b.track_number
    && equals a.service_id b.service_id

-- The members of an object that is cast to `CdsItem`.
unfoldable pub item_of : Class → Option Item
item_of (container _ _ _) = none
item_of (item part) = some part
item_of (active_item part _ _) = some part
item_of (external_url part) = some part
item_of (internal_url part) = some part

unfoldable pub same_item : Item → Option Item → Option Bool
unfolding item_equals
same_item part none = none
same_item part (some other) = some (item_equals part other)

-- What `equals` of each class compares beside the base; `none` is a cast to a class that the other
-- object does not have.
unfoldable pub class_equals : CdsObject → CdsObject → Bool → Class → Class → Option Bool
unfolding item_equals same_item item_of equals
class_equals o obj exactly (container _ _ _) (container _ _ _) =
    some (bool_eq (is_searchable o) (is_searchable obj))
class_equals o obj exactly (container _ _ _) other = none
class_equals o obj exactly (item part) other = same_item part (item_of other)
class_equals o obj exactly (active_item part action state) (active_item p a s) =
    some (item_equals part p && (not exactly || equals action a && equals state s))
class_equals o obj exactly (active_item part action state) other = none
class_equals o obj exactly (external_url part) other = same_item part (item_of other)
class_equals o obj exactly (internal_url part) other = same_item part (item_of other)

abbrev both : Bool → Option Bool → Option Bool
both b none = none
both b (some c) = some (b && c)

-- The virtual `equals`.
unfoldable pub object_equals : CdsObject → CdsObject → Bool → Option Bool
unfolding base_equals class_equals
object_equals o obj exactly =
    both (base_equals o obj exactly) (class_equals o obj exactly o.class obj.class)
