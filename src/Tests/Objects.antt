-- ===== src/Tests/Objects.antt =====
-- Content directory objects and handlers over memory at concrete inputs.
use gerber.Prelude.{◌≡◌, refl, Bool, true, [], ◌∷◌, none, some, arith}
use gerber.Prelude.Int.{pos, negsuc}
use gerber.Zmm.Strings.{ZString, Bytes}
use gerber.Cds.{
  CdsObject, container, internal_url, make_item_part, create_object, object_type, copy_to,
  class_type,
}
use gerber.Cds.Validation.{validate}
use gerber.Cds.Equality.{object_equals}
use gerber.Cds.Copying.{IsKeyed, kept, copy_to-create_object}
use gerber.Cds.Naming.{
  map_object_type, remap_object_type, named_type, remap_object_type-map_object_type,
}
use gerber.Io.Memory.{MemHandler, place, seek_cur, seek}
use gerber.Io.Memory.Window.{IsWithin, Seeks, Reads, target, reads, sum, reads_lem, seek-Seeks}

-- A container with a resource and a pair of metadata.
abbrev album : CdsObject
album = record {
  id = pos 7;
  ref_id = negsuc 332;
  parent_id = pos 1;
  title = some (b'a' ∷ []);
  upnp_class = some (b'o' ∷ []);
  location = none;
  mtime = pos 12;
  size_on_disk = pos 0;
  virt = true;
  object_flags = 3;
  sort_priority = pos 0;
  metadata = record { key = some (b'k' ∷ []); value = none } ∷ [];
  auxdata = [];
  resources = record { handler_type = pos 2; attributes = []; parameters = []; options = [] } ∷ [];
  class = container (pos 4) (pos 9) (pos 1);
}

album-IsKeyed : IsKeyed album
album-IsKeyed = record {
  metadata = (refl, tt);
  auxdata = tt;
  resources = (record { attributes = tt; parameters = tt; options = tt }, tt);
}

copy_to-create_object_example :
    (new : CdsObject) × (create_object (object_type album) ≡ some new)
    × (copy_to album new ≡ kept album)
    × ((exactly : Bool) → object_equals album (copy_to album new) exactly ≡ some true)
    × ((check_path : ZString → Bool)
        → validate check_path (copy_to album new) ≡ validate check_path album)
copy_to-create_object_example = copy_to-create_object album album-IsKeyed

remap_object_type-map_object_type_example :
    (name : Bytes) × (map_object_type (class_type (internal_url make_item_part)) ≡ some name)
    × (remap_object_type (some name) ≡ some (named_type (internal_url make_item_part)))
remap_object_type-map_object_type_example =
    remap_object_type-map_object_type (internal_url make_item_part)

-- Three bytes, of which one has been read.
abbrev handler : MemHandler
handler = record { buffer = 5 ∷ 6 ∷ 7 ∷ []; pos = some 1 }

handler-IsWithin : IsWithin handler
unfolding place
handler-IsWithin = omega arith

reads_lem_example : Reads (sum (1 ∷ 4 ∷ [])) handler (reads (1 ∷ 4 ∷ []) handler)
reads_lem_example = reads_lem (1 ∷ 4 ∷ []) handler handler-IsWithin

seek-Seeks_example : Seeks (target (pos 2) seek_cur handler) handler (seek (pos 2) seek_cur handler)
seek-Seeks_example = seek-Seeks (pos 2) seek_cur handler tt
