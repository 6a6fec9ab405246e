-- ===== src/File/Attribute/Values.antt =====
-- The attributes of a file (agent/plugin/file/attribute.h, agent/common/file.h) and the FlatBuffers tables
-- that hold them (agent/plugin/file/serialization/public/file.fbs).
use yella.Prelude.{ℕ, Bool, List, [], Option, none, Text}

-- `yella_file_type`
pub data FileType : Type 0 where
  block_special character_special directory fifo symbolic_link regular socket whiteout : FileType

-- `posix_permission` and `posix_permissions`
pub record Permission : Type 0 where
  pub read : Bool
  pub write : Bool
  pub execute : Bool

pub record Permissions : Type 0 where
  pub owner : Permission
  pub group : Permission
  pub other : Permission
  pub set_uid : Bool
  pub set_gid : Bool
  pub sticky : Bool

-- `user_group`
pub record UserGroup : Type 0 where
  pub id : ℕ
  pub name : Text

-- `posix_acl_entry_type` and `posix_acl_entry`
pub data EntryType : Type 0 where
  user_entry group_entry mask_entry user_obj_entry group_obj_entry other_entry : EntryType

pub record AclEntry : Type 0 where
  pub type : EntryType
  pub usr_grp : UserGroup
  pub perm : Permission

-- `attribute`: the type with the union's member for it
pub data Attribute : Type 0 where
  file_type : FileType → Attribute
  sha256 : List ℕ → Attribute
  posix_permissions : Permissions → Attribute
  user : UserGroup → Attribute
  group : UserGroup → Attribute
  size : ℕ → Attribute
  access_time : ℕ → Attribute
  metadata_change_time : ℕ → Attribute
  modification_time : ℕ → Attribute
  posix_acl : List AclEntry → Attribute

-- The tables of the schema, with names in UTF-8. A table that was not added is `none`, and a
-- scalar that was not added has the schema's default.
pub record FbPermissions : Type 0 where
  pub owner : Option Permission
  pub group : Option Permission
  pub other : Option Permission
  pub set_uid : Bool
  pub set_gid : Bool
  pub sticky : Bool

pub record FbEntry : Type 0 where
  pub type : ℕ
  pub usr_grp : Option UserGroup
  pub permission : Permission

pub record FbAttr : Type 0 where
  pub type : ℕ
  pub bytes : List ℕ
  pub ftype : ℕ
  pub psx_permissions : Option FbPermissions
  pub usr_grp : Option UserGroup
  pub unsigned_int : ℕ
  pub milliseconds_since_epoch : ℕ
  pub psx_acl : Option (List FbEntry)

abbrev pub fb_attr_start : FbAttr
fb_attr_start = record {
  type = 1;
  bytes = [];
  ftype = 6;
  psx_permissions = none;
  usr_grp = none;
  unsigned_int = 0;
  milliseconds_since_epoch = 0;
  psx_acl = none;
}
