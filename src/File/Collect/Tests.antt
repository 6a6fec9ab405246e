-- ===== src/File/Collect/Tests.antt =====
-- What is found of a file at a concrete input, with a list for the sorted list.
use yella.Prelude.{if◌then◌else◌, ◌≡◌, Bool, true, false, List, [], ◌∷◌, none, some, codes}
use yella.Sglib.SortedList.{lookup}
use yella.Sglib.Samples.{sorted_ops, sorted_laws}
use yella.File.Attribute.{regular, Permission, UserGroup, Attribute}
use yella.File.Attribute.Types.{AttributeType, sha256, size, access_time}
use yella.File.Attribute.Compare.{type_index}
use yella.File.Element.{Element}
use yella.File.Collect.{Snapshot, collect_attributes}
use yella.Sglib.SortedList.{SortedOps}
use yella.File.Collect.Values.{number_of, value_of, asks, if_asked}
use yella.File.Collect.Wanted.{with_option, wanted, collect_attributes_lem}

abbrev nobody : UserGroup
nobody = record { id = 7; name = codes "nobody" }

abbrev closed : Permission
closed = record { read = false; write = false; execute = false }

abbrev snapshot : Snapshot
snapshot = record {
  ftype = regular;
  access_time_of = 10;
  metadata_change_time_of = 11;
  modification_time_of = 12;
  size_of = 5;
  user_of = nobody;
  group_of = nobody;
  permissions_of = record {
    owner = closed;
    group = closed;
    other = closed;
    set_uid = false;
    set_gid = false;
    sticky = false;
  };
  digest = some (1 ∷ 2 ∷ []);
  acl = none;
}

abbrev types : List AttributeType
types = access_time ∷ sha256 ∷ size ∷ access_time ∷ size ∷ []

abbrev ops : SortedOps (List Attribute) Attribute
ops = sorted_ops type_index

collect_attributes_lem_example :
    (elem : Element (List Attribute)) × (reset : Bool) × (collect_attributes ops
        (codes "/f")
        types
        true
        (some snapshot)
      ≡ some (elem, reset))
    × (ops.items elem.attrs
        ≡ with_option ops
            (sorted_laws type_index)
            snapshot
            (if asks access_time types then some (Attribute.access_time 10) else none)
            (wanted ops (sorted_laws type_index) snapshot types []))
    × ((t : AttributeType)
        → lookup type_index (number_of t) (ops.items elem.attrs)
          ≡ if_asked (asks t types) (value_of snapshot t))
collect_attributes_lem_example =
    collect_attributes_lem ops (sorted_laws type_index) snapshot (codes "/f") types
