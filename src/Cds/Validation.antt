-- ===== src/Cds/Validation.antt =====
-- cds_objects.cc: `validate` of the classes.
use gerber.Prelude.{Bool, false, not, Option, none, some, if◌then◌else◌}
use gerber.Zmm.Strings.{ZString, string_ok, starts_with}
use gerber.Cds.Words.{http}
use gerber.Cds.{Item, Class, container, item, active_item, external_url, internal_url, CdsObject}

-- The exceptions of `validate`.
pub data Fault : Type 0 where
  missing_title : Fault
  missing_class : Fault
  missing_mimetype : Fault
  missing_location : Fault
  location_not_found : Fault
  missing_action : Fault
  action_not_found : Fault
  not_relative : Fault

-- `check_path` asks the file system whether a file exists.
module _ (check_path : ZString → Bool) where
  unfoldable pub validate_base : CdsObject → Option Fault
  unfolding string_ok
  validate_base o =
      if not (string_ok o.title)
      then some missing_title
      else if not (string_ok o.upnp_class)
      then some missing_class
      else none

  unfoldable pub validate_location : CdsObject → Item → Option Fault
  unfolding string_ok
  validate_location o part =
      if not (string_ok part.mime_type)
      then some missing_mimetype
      else if not (string_ok o.location)
      then some missing_location
      else none

  unfoldable pub validate_file : CdsObject → Option Fault
  validate_file o = if check_path o.location then none else some location_not_found

  unfoldable pub validate_action : ZString → Option Fault
  unfolding string_ok
  validate_action action =
      if not (string_ok action)
      then some missing_action
      else if check_path action
      then none
      else some action_not_found

  abbrev starts_http : ZString → Bool
  starts_http none = false
  starts_http (some s) = starts_with s http

  unfoldable pub validate_relative : CdsObject → Option Fault
  unfolding starts_with
  validate_relative o = if starts_http o.location then some not_relative else none

  abbrev and_then : Option Fault → Option Fault → Option Fault
  and_then none next = next
  and_then (some e) next = some e

  -- What `validate` of each class checks behind `CdsObject::validate`; `none` passes.
  unfoldable pub validate_class : CdsObject → Class → Option Fault
  unfolding validate_location validate_file validate_action validate_relative
  validate_class o (container _ _ _) = none
  validate_class o (item part) = and_then (validate_location o part) (validate_file o)
  validate_class o (active_item part action _) =
      and_then (and_then (validate_location o part) (validate_file o)) (validate_action action)
  validate_class o (external_url part) = validate_location o part
  validate_class o (internal_url part) = and_then (validate_location o part) (validate_relative o)

  unfoldable pub validate : CdsObject → Option Fault
  unfolding validate_base validate_class
  validate o = and_then (validate_base o) (validate_class o o.class)
