-- ===== src/File/Attribute.antt =====
-- The attributes of a file (agent/plugin/file/attribute.c), and the FlatBuffers table that holds one
-- (agent/plugin/file/serialization/public/file.fbs).
use yella.Prelude.{
  ◌++◌, ℕ, zero, suc, ◌+◌, ◌-◌, ◌%◌, ◌^◌, Bool, true, false, ◌||◌, List, [], ◌∷◌, Option, none,
  some, compare, Ordering, ◌==◌, ltb, if◌then◌else◌, length, Text,
}
use mathlib.Core.Option
use yella.External.{Utf8, all_converted}
pub mod Values
pub use Values.*
pub mod Types
pub mod Compare
pub mod RoundTrip
mod Tests

-- `file_type_to_fb`
unfoldable pub file_type_to_fb : FileType → ℕ
file_type_to_fb block_special = 1
file_type_to_fb character_special = 2
file_type_to_fb directory = 3
file_type_to_fb fifo = 4
file_type_to_fb symbolic_link = 5
file_type_to_fb regular = 6
file_type_to_fb socket = 7
file_type_to_fb whiteout = 8

-- `fb_to_file_type`; `none` is the failed assertion.
unfoldable pub fb_to_file_type : ℕ → Option FileType
fb_to_file_type fbt =
    if fbt == 1
    then some block_special
    else if fbt == 2
    then some character_special
    else if fbt == 3
    then some directory
    else if fbt == 4
    then some fifo
    else if fbt == 5
    then some symbolic_link
    else if fbt == 6
    then some regular
    else if fbt == 7
    then some socket
    else if fbt == 8
    then some whiteout
    else none

unfoldable pub entry_type_to_fb : EntryType → ℕ
entry_type_to_fb user_entry = 1
entry_type_to_fb group_entry = 2
entry_type_to_fb mask_entry = 3
entry_type_to_fb user_obj_entry = 4
entry_type_to_fb group_obj_entry = 5
entry_type_to_fb other_entry = 6

-- A permission is added if it permits anything.
abbrev add_permission : Permission → Option Permission
add_permission p = if p.read || (p.write || p.execute) then some p else none

abbrev no_permission : Permission
no_permission = record { read = false; write = false; execute = false }

abbrev read_permission : Option Permission → Permission
read_permission none = no_permission
read_permission (some p) = p

unfoldable pub pack_permissions : Permissions → FbPermissions
pack_permissions p = record {
  owner = add_permission p.owner;
  group = add_permission p.group;
  other = add_permission p.other;
  set_uid = p.set_uid;
  set_gid = p.set_gid;
  sticky = p.sticky;
}

unfoldable pub permissions_from_table : FbPermissions → Permissions
permissions_from_table t = record {
  owner = read_permission t.owner;
  group = read_permission t.group;
  other = read_permission t.other;
  set_uid = t.set_uid;
  set_gid = t.set_gid;
  sticky = t.sticky;
}

module _ (utf : Utf8) where
  abbrev pack_user_group : UserGroup → UserGroup
  pack_user_group g = record g { name = utf.to_utf8 g.name }

  abbrev user_group_from_table : UserGroup → UserGroup
  user_group_from_table g = record g { name = utf.from_utf8 g.name }

  -- A name goes with users and groups only.
  abbrev entry_user_group : EntryType → UserGroup → Option UserGroup
  entry_user_group user_entry g = some (pack_user_group g)
  entry_user_group group_entry g = some (pack_user_group g)
  entry_user_group _ g = none

  unfoldable pub pack_entry : AclEntry → FbEntry
  unfolding entry_type_to_fb
  pack_entry e = record {
    type = entry_type_to_fb e.type;
    usr_grp = entry_user_group e.type e.usr_grp;
    permission = e.perm;
  }

  unfoldable pub pack_entries : List AclEntry → List FbEntry
  pack_entries [] = []
  pack_entries (e ∷ es) = pack_entry e ∷ pack_entries es

  -- An entry is read as a user's or else as a group's; a table that is not there is a fault.
  unfoldable pub entry_from_table : FbEntry → Option AclEntry
  entry_from_table t = elim t.usr_grp [
    | none ↦ none
    | some g ↦ some (record {
      type = (if t.type == 1 then user_entry else group_entry);
      usr_grp = user_group_from_table g;
      perm = t.permission;
    })
  ]

  unfoldable pub entries_from_table : List FbEntry → Option (List AclEntry)
  entries_from_table [] = some []
  entries_from_table (t ∷ ts) = elim (entry_from_table t) [
    | none ↦ none
    | some e ↦ Option.map (λ es. e ∷ es) (entries_from_table ts)
  ]

  -- The table that `pack_attribute` builds
  unfoldable pub attribute_table : Attribute → FbAttr
  attribute_table (file_type ft) = record fb_attr_start { type = 1; ftype = file_type_to_fb ft }
  attribute_table (sha256 bytes) = record fb_attr_start { type = 2; bytes = bytes }
  attribute_table (posix_permissions p) = record fb_attr_start {
    type = 3;
    psx_permissions = some (pack_permissions p);
  }
  attribute_table (user g) = record fb_attr_start { type = 4; usr_grp = some (pack_user_group g) }
  attribute_table (group g) = record fb_attr_start { type = 5; usr_grp = some (pack_user_group g) }
  attribute_table (size n) = record fb_attr_start { type = 6; unsigned_int = n }
  attribute_table (access_time n) = record fb_attr_start { type = 7; milliseconds_since_epoch = n }
  attribute_table (metadata_change_time n) = record fb_attr_start {
    type = 8;
    milliseconds_since_epoch = n;
  }
  attribute_table (modification_time n) = record fb_attr_start {
    type = 9;
    milliseconds_since_epoch = n;
  }
  attribute_table (posix_acl []) = record fb_attr_start { type = 10 }
  attribute_table (posix_acl (e ∷ es)) = record fb_attr_start {
    type = 10;
    psx_acl = some (pack_entries (e ∷ es));
  }

  -- The names that are converted.
  unfoldable pub entry_names : EntryType → UserGroup → List Text
  entry_names user_entry g = g.name ∷ []
  entry_names group_entry g = g.name ∷ []
  entry_names _ g = []

  unfoldable pub names_of_entries : List AclEntry → List Text
  names_of_entries [] = []
  names_of_entries (e ∷ es) = entry_names e.type e.usr_grp ++ names_of_entries es

  unfoldable pub names_of : Attribute → List Text
  names_of (user g) = g.name ∷ []
  names_of (group g) = g.name ∷ []
  names_of (posix_acl es) = names_of_entries es
  names_of _ = []

  -- `none` is the use of a NULL text, a name that is not converted.
  unfoldable pub pack_attribute : Attribute → Option FbAttr
  pack_attribute a = if all_converted utf (names_of a) then some (attribute_table a) else none

  abbrev acl_from_table : Option (List FbEntry) → Option Attribute
  acl_from_table none = some (posix_acl [])
  acl_from_table (some ts) = Option.map posix_acl (entries_from_table ts)

  -- `create_attribute_from_table`; `none` is a failed assertion or a table that is not there.
  unfoldable pub create_attribute_from_table : FbAttr → Option Attribute
  create_attribute_from_table t =
      if t.type == 1
      then Option.map file_type (fb_to_file_type t.ftype)
      else if t.type == 2
      then some (sha256 t.bytes)
      else if t.type == 3
      then Option.map (λ p. posix_permissions (permissions_from_table p)) t.psx_permissions
      else if t.type == 4
      then Option.map (λ g. user (user_group_from_table g)) t.usr_grp
      else if t.type == 5
      then Option.map (λ g. group (user_group_from_table g)) t.usr_grp
      else if t.type == 6
      then some (size t.unsigned_int)
      else if t.type == 7
      then some (access_time t.milliseconds_since_epoch)
      else if t.type == 8
      then some (metadata_change_time t.milliseconds_since_epoch)
      else if t.type == 9
      then some (modification_time t.milliseconds_since_epoch)
      else if t.type == 10
      then acl_from_table t.psx_acl
      else none
