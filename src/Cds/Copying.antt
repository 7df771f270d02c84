-- ===== src/Cds/Copying.antt =====
-- `CdsObject::copyTo` onto an object that `createObject` has just made.
use gerber.Prelude.{◌≡◌, refl, Bool, true, List, [], ◌∷◌, map, some, arith, All}
use gerber.Prelude.Int.{pos, negsuc}
use gerber.Zmm.Strings.{ZString}
use gerber.Dictionary.{Dictionary, dictionary_equals}
use gerber.Dictionary.Lookup.{IsDistinct, equals_refl}
use gerber.Dictionary.Equality.{clone_lem, dictionary_equals_iff}
use gerber.Resource.{Resource, clone_resource, resource_equals}
use gerber.Cds.{
  Item, Class, container, item, active_item, external_url, internal_url, CdsObject, create_object,
  class_type, copy_class, make_item, make_active_item, make_external_url, make_internal_url,
  make_container, copy_to, object_type, copy_item, copy_active, copy_container, make,
}
use gerber.Cds.Validation.{
  validate, validate_base, validate_class, validate_location, validate_file, validate_relative,
}
use gerber.Cds.Equality.{
  object_equals, base_equals, class_equals, resources_equal, item_equals, same_item, item_of,
}

-- The keys of a resource's dictionaries are distinct.
pub record HasKeys (r : Resource) : Type 0 where
  pub attributes : IsDistinct r.attributes
  pub parameters : IsDistinct r.parameters
  pub options : IsDistinct r.options

-- The keys of all dictionaries of an object are distinct, which `put` keeps.
pub record IsKeyed (o : CdsObject) : Type 0 where
  pub metadata : IsDistinct o.metadata
  pub auxdata : IsDistinct o.auxdata
  pub resources : All HasKeys o.resources

clone_resource_lem : (r : Resource) → HasKeys r → clone_resource r ≡ r
unfolding clone_resource
clone_resource_lem r h =
    rw
      (
        clone_lem r.attributes h.attributes,
        clone_lem r.parameters h.parameters,
        clone_lem r.options h.options,
      )
      refl

clone_resources : (rs : List Resource) → All HasKeys rs → map clone_resource rs ≡ rs
clone_resources [] h = refl
clone_resources (r ∷ rs) h = rw (clone_resource_lem r h.0, clone_resources rs h.1) refl

-- What a copy keeps of a class: a container's number of children and autoscan type are not copied.
abbrev kept_class : Class → Class
kept_class (container u _ _) = container u (negsuc 0) (pos 0)
kept_class c = c

fresh :
    (c : Class)
    → (new : CdsObject) × (create_object (class_type c) ≡ some new)
      × (new.resources ≡ [])
      × (copy_class c new.class ≡ kept_class c)
unfolding create_object class_type copy_class copy_item copy_active copy_container make make_item
    make_active_item make_external_url make_internal_url make_container
fresh (container u c a) = (make_container, refl, refl, refl)
fresh (item part) = (make_item, refl, refl, refl)
fresh (active_item part a s) = (make_active_item, refl, refl, refl)
fresh (external_url part) = (make_external_url, refl, refl, refl)
fresh (internal_url part) = (make_internal_url, refl, refl, refl)

-- What a copy keeps of an object.
abbrev pub kept : CdsObject → CdsObject
kept o = record o { class = kept_class o.class }

copied :
    (o new : CdsObject)
    → IsKeyed o
    → new.resources ≡ []
    → copy_class o.class new.class ≡ kept_class o.class
    → copy_to o new ≡ kept o
unfolding copy_to
copied o new h e f =
    rw
      (
        clone_lem o.metadata h.metadata,
        clone_lem o.auxdata h.auxdata,
        clone_resources o.resources h.resources,
        e,
        f,
      )
      refl

dictionary_equals_refl : (d : Dictionary) → IsDistinct d → dictionary_equals d d ≡ true
dictionary_equals_refl d h = (dictionary_equals_iff d d h h).1 (λ k. refl)

resource_equals_refl : (r : Resource) → HasKeys r → resource_equals r r ≡ true
unfolding resource_equals
resource_equals_refl r h = ground (
  arith,
  dictionary_equals_refl r.attributes h.attributes,
  dictionary_equals_refl r.parameters h.parameters,
  dictionary_equals_refl r.options h.options,
)

resources_equal_refl : (rs : List Resource) → All HasKeys rs → resources_equal rs rs ≡ true
unfolding resources_equal
resources_equal_refl [] h = refl
resources_equal_refl (r ∷ rs) h = rw (resource_equals_refl r h.0, resources_equal_refl rs h.1) refl

base_equals_kept :
    (o : CdsObject) (exactly : Bool) → IsKeyed o → base_equals o (kept o) exactly ≡ true
unfolding base_equals
base_equals_kept o exactly h = ground (
  arith,
  equals_refl o.title,
  equals_refl o.upnp_class,
  equals_refl o.location,
  resources_equal_refl o.resources h.resources,
  dictionary_equals_refl o.metadata h.metadata,
  dictionary_equals_refl o.auxdata h.auxdata,
)

item_equals_refl : (p : Item) → item_equals p p ≡ true
unfolding item_equals
item_equals_refl p = ground (arith, equals_refl p.mime_type, equals_refl p.service_id)

class_equals_kept :
    (o : CdsObject) (exactly : Bool) (c : Class)
    → class_equals o (kept o) exactly c (kept_class c) ≡ some true
unfolding class_equals same_item item_of
class_equals_kept o exactly (container u c a) = ground arith
class_equals_kept o exactly (item part) = rw (item_equals_refl part) refl
class_equals_kept o exactly (active_item part a s) =
    ground (arith, item_equals_refl part, equals_refl a, equals_refl s)
class_equals_kept o exactly (external_url part) = rw (item_equals_refl part) refl
class_equals_kept o exactly (internal_url part) = rw (item_equals_refl part) refl

object_equals_kept :
    (o : CdsObject) (exactly : Bool) → IsKeyed o → object_equals o (kept o) exactly ≡ some true
unfolding object_equals
object_equals_kept o exactly h =
    rw (base_equals_kept o exactly h, class_equals_kept o exactly o.class) refl

validate_class_kept :
    (check_path : ZString → Bool) (o : CdsObject) (c : Class)
    → validate_class check_path (kept o) (kept_class c) ≡ validate_class check_path o c
unfolding validate_class validate_location validate_file validate_relative
validate_class_kept check_path o (container u c a) = refl
validate_class_kept check_path o (item part) = refl
validate_class_kept check_path o (active_item part a s) = refl
validate_class_kept check_path o (external_url part) = refl
validate_class_kept check_path o (internal_url part) = refl

validate_kept :
    (check_path : ZString → Bool) (o : CdsObject)
    → validate check_path (kept o) ≡ validate check_path o
unfolding validate validate_base
validate_kept check_path o = rw (validate_class_kept check_path o o.class) refl

-- `createObject` makes an object of every object's type, and `copyTo` turns it into a copy that
-- `equals` the object, exactly or not, and that `validate` treats alike, whatever files there are: all
-- but a container's number of children and autoscan type is copied. The keys of the object's
-- dictionaries are distinct.
pub copy_to-create_object :
    (o : CdsObject)
    → IsKeyed o
    → (new : CdsObject) × (create_object (object_type o) ≡ some new)
      × (copy_to o new ≡ kept o)
      × ((exactly : Bool) → object_equals o (copy_to o new) exactly ≡ some true)
      × ((check_path : ZString → Bool)
          → validate check_path (copy_to o new) ≡ validate check_path o)
unfolding object_type
copy_to-create_object o h =
    let (new, made, empty, class) = fresh o.class in
    let same = copied o new h empty class in
    (
      new,
      made,
      same,
      λ exactly. rw same (object_equals_kept o exactly h),
      λ check_path. rw same (validate_kept check_path o),
    )
