-- ===== src/File/Collect/Values.antt =====
-- What there is to know of a file under a type (agent/plugin/file/collect_attributes.c).
use yella.Prelude.{
  ℕ, ◌≡◌, refl, sym, ap, ◌∙◌, Bool, true, false, ◌||◌, List, [], ◌∷◌, Option, none, some, ◌==◌,
  if◌then◌else◌, ==_iff,
}
use yella.File.Attribute.{AclEntry, Attribute}
use yella.File.Attribute.Types.{
  AttributeType, file_type, sha256, posix_permissions, user, group, size, access_time,
  metadata_change_time, modification_time, posix_acl,
}
use yella.File.Attribute.Compare.{type_index}
use yella.File.Collect.{Snapshot, has_contents}

-- The numbers of the types, as an attribute has them.
abbrev pub number_of : AttributeType → ℕ
number_of file_type = 0
number_of sha256 = 1
number_of posix_permissions = 2
number_of user = 3
number_of group = 4
number_of size = 5
number_of access_time = 6
number_of metadata_change_time = 7
number_of modification_time = 8
number_of posix_acl = 9

-- The digest of a file, of one that has contents.
abbrev pub digest_of : Bool → Option (List ℕ) → Option Attribute
digest_of true (some md) = some (Attribute.sha256 md)
digest_of _ _ = none

abbrev pub acl_of : Option (List AclEntry) → Option Attribute
acl_of none = none
acl_of (some acl) = some (Attribute.posix_acl acl)

-- What there is to know of a file under a type.
abbrev pub value_of : Snapshot → AttributeType → Option Attribute
value_of snap file_type = some (Attribute.file_type snap.ftype)
value_of snap sha256 = digest_of (has_contents snap.ftype) snap.digest
value_of snap posix_permissions = some (Attribute.posix_permissions snap.permissions_of)
value_of snap user = some (Attribute.user snap.user_of)
value_of snap group = some (Attribute.group snap.group_of)
value_of snap size = some (Attribute.size snap.size_of)
value_of snap access_time = some (Attribute.access_time snap.access_time_of)
value_of snap metadata_change_time =
    some (Attribute.metadata_change_time snap.metadata_change_time_of)
value_of snap modification_time = some (Attribute.modification_time snap.modification_time_of)
value_of snap posix_acl = acl_of snap.acl

-- Whether a type is asked for.
abbrev pub asks : AttributeType → List AttributeType → Bool
asks t [] = false
asks t (u ∷ us) = number_of t == number_of u || asks t us

-- What the loop adds for a type; the access time is added behind it.
abbrev pub loop_value : Snapshot → AttributeType → Option Attribute
loop_value snap access_time = none
loop_value snap t = value_of snap t

abbrev pub if_asked : Bool → Option Attribute → Option Attribute
if_asked asked o = if asked then o else none

of_number : ℕ → AttributeType
of_number n =
    if n == 0
    then file_type
    else if n == 1
    then sha256
    else if n == 2
    then posix_permissions
    else if n == 3
    then user
    else if n == 4
    then group
    else if n == 5
    then size
    else if n == 6
    then access_time
    else if n == 7
    then metadata_change_time
    else if n == 8
    then modification_time
    else posix_acl

of_number_lem : (t : AttributeType) → of_number (number_of t) ≡ t
unfolding of_number
of_number_lem file_type = refl
of_number_lem sha256 = refl
of_number_lem posix_permissions = refl
of_number_lem user = refl
of_number_lem group = refl
of_number_lem size = refl
of_number_lem access_time = refl
of_number_lem metadata_change_time = refl
of_number_lem modification_time = refl
of_number_lem posix_acl = refl

pub same_type : (t u : AttributeType) → (number_of t == number_of u) ≡ true → t ≡ u
same_type t u e =
    sym (of_number_lem t)
    ∙ ap of_number ((==_iff (number_of t) (number_of u)).0 e)
    ∙ of_number_lem u

-- The number of an attribute that there may be.
abbrev pub index_or : ℕ → Option Attribute → ℕ
index_or n none = n
index_or n (some a) = type_index a

digest-index : (b : Bool) (md : Option (List ℕ)) → index_or 1 (digest_of b md) ≡ 1
digest-index true none = refl
digest-index true (some md) = refl
digest-index false md = refl

acl-index : (acl : Option (List AclEntry)) → index_or 9 (acl_of acl) ≡ 9
acl-index none = refl
acl-index (some acl) = refl

pub loop_value-index :
    (snap : Snapshot) (u : AttributeType) → index_or (number_of u) (loop_value snap u) ≡ number_of u
loop_value-index snap file_type = refl
loop_value-index snap sha256 = digest-index (has_contents snap.ftype) snap.digest
loop_value-index snap posix_permissions = refl
loop_value-index snap user = refl
loop_value-index snap group = refl
loop_value-index snap size = refl
loop_value-index snap access_time = refl
loop_value-index snap metadata_change_time = refl
loop_value-index snap modification_time = refl
loop_value-index snap posix_acl = acl-index snap.acl
