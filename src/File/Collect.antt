-- ===== src/File/Collect.antt =====
-- What is found of a file (agent/plugin/file/collect_attributes.c).
use yella.Prelude.{ℕ, Bool, true, false, List, [], ◌∷◌, Option, none, some, if◌then◌else◌, Text}
use yella.Sglib.SortedList.{SortedOps}
use yella.File.Attribute.{
  FileType, regular, symbolic_link, Permissions, UserGroup, AclEntry, Attribute,
}
use yella.File.Attribute.Types.{
  AttributeType, file_type, sha256, posix_permissions, user, group, size, access_time,
  metadata_change_time, modification_time, posix_acl,
}
use yella.File.Element.{Element, create_element, add_element_attribute}
pub mod Values
pub mod Each
pub mod Wanted
mod Tests

-- What the calls of the operating system and of OpenSSL return for a file: its type, the fields of the
-- stat buffer, the digest of its contents if they could be read, and its access control list, if any.
pub record Snapshot : Type 0 where
  pub ftype : FileType
  pub access_time_of : ℕ
  pub metadata_change_time_of : ℕ
  pub modification_time_of : ℕ
  pub size_of : ℕ
  pub user_of : UserGroup
  pub group_of : UserGroup
  pub permissions_of : Permissions
  pub digest : Option (List ℕ)
  pub acl : Option (List AclEntry)

-- The variables of `collect_attributes`.
pub record Collected (L : Type 0) : Type 0 where
  pub elem : Element L
  pub should_reset_access_time : Bool
  pub should_get_access_time : Bool

unfoldable pub has_contents : FileType → Bool
has_contents regular = true
has_contents symbolic_link = true
has_contents _ = false

module _ {L : Type 0} (ops : SortedOps L Attribute) where
  abbrev pub with_attribute : Collected L → Attribute → Collected L
  with_attribute c attr = record c { elem = add_element_attribute ops c.elem attr }

  unfoldable pub handle_posix_acl : Collected L → Option (List AclEntry) → Collected L
  handle_posix_acl c none = c
  handle_posix_acl c (some acl) = with_attribute c (Attribute.posix_acl acl)

  unfoldable pub add_digest : Collected L → Option (List ℕ) → Collected L
  add_digest c none = record c { should_reset_access_time = false }
  add_digest c (some md) = record (with_attribute c (Attribute.sha256 md)) {
    should_reset_access_time = true;
  }

  -- `handle_sha256`, whose result says whether to reset the access time
  unfoldable pub handle_sha256 : Collected L → Snapshot → Collected L
  handle_sha256 c snap =
      if has_contents snap.ftype
      then add_digest c snap.digest
      else record c { should_reset_access_time = false }

  -- The `switch`, with the functions that it calls
  unfoldable pub collect_one : Snapshot → Collected L → AttributeType → Collected L
  collect_one snap c file_type = with_attribute c (Attribute.file_type snap.ftype)
  collect_one snap c posix_permissions =
      with_attribute c (Attribute.posix_permissions snap.permissions_of)
  collect_one snap c user = with_attribute c (Attribute.user snap.user_of)
  collect_one snap c group = with_attribute c (Attribute.group snap.group_of)
  collect_one snap c size = with_attribute c (Attribute.size snap.size_of)
  collect_one snap c access_time = record c { should_get_access_time = true }
  collect_one snap c metadata_change_time =
      with_attribute c (Attribute.metadata_change_time snap.metadata_change_time_of)
  collect_one snap c modification_time =
      with_attribute c (Attribute.modification_time snap.modification_time_of)
  collect_one snap c posix_acl = handle_posix_acl c snap.acl
  collect_one snap c sha256 = handle_sha256 c snap

  unfoldable pub collect_each : Snapshot → Collected L → List AttributeType → Collected L
  collect_each snap c [] = c
  collect_each snap c (atp ∷ atps) = collect_each snap (collect_one snap c atp) atps

  -- `handle_access_time`, at the end
  unfoldable pub add_access_time : Snapshot → Collected L → Element L
  add_access_time snap c =
      if c.should_get_access_time
      then add_element_attribute ops c.elem (Attribute.access_time snap.access_time_of)
      else c.elem

  abbrev pub starting : Text → Collected L
  starting name = record {
    elem = create_element ops name;
    should_reset_access_time = false;
    should_get_access_time = false;
  }

  -- `collect_attributes`, by whether the file exists and by what is found of it, if its type can be
  -- read: the element, and whether the access time is reset.
  unfoldable pub collect_attributes :
      Text → List AttributeType → Bool → Option Snapshot → Option (Element L × Bool)
  collect_attributes name attr_types false found = none
  collect_attributes name attr_types true none = none
  collect_attributes name attr_types true (some snap) =
      let c = collect_each snap (starting name) attr_types in
      some (add_access_time snap c, c.should_reset_access_time)
