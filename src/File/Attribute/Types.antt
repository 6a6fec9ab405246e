-- ===== src/File/Attribute/Types.antt =====
-- The types of attributes and their numbers in the schema (agent/plugin/file/attribute.c,
-- agent/plugin/file/serialization/public/file.fbs).
use yella.Prelude.{ℕ, ◌≡◌, refl, Option, none, some, ◌==◌, if◌then◌else◌}

-- `attribute_type`
pub data AttributeType : Type 0 where
  file_type sha256 posix_permissions user group size access_time : AttributeType
  metadata_change_time modification_time posix_acl : AttributeType

unfoldable pub attribute_type_to_fb : AttributeType → ℕ
attribute_type_to_fb file_type = 1
attribute_type_to_fb sha256 = 2
attribute_type_to_fb posix_permissions = 3
attribute_type_to_fb user = 4
attribute_type_to_fb group = 5
attribute_type_to_fb size = 6
attribute_type_to_fb access_time = 7
attribute_type_to_fb metadata_change_time = 8
attribute_type_to_fb modification_time = 9
attribute_type_to_fb posix_acl = 10

-- `fb_to_attribute_type`; `none` is the failed assertion.
unfoldable pub fb_to_attribute_type : ℕ → Option AttributeType
fb_to_attribute_type fb =
    if fb == 1
    then some file_type
    else if fb == 2
    then some sha256
    else if fb == 3
    then some posix_permissions
    else if fb == 4
    then some user
    else if fb == 5
    then some group
    else if fb == 6
    then some size
    else if fb == 7
    then some access_time
    else if fb == 8
    then some metadata_change_time
    else if fb == 9
    then some modification_time
    else if fb == 10
    then some posix_acl
    else none

pub attribute_type-round :
    (atp : AttributeType) → fb_to_attribute_type (attribute_type_to_fb atp) ≡ some atp
unfolding fb_to_attribute_type attribute_type_to_fb
attribute_type-round file_type = refl
attribute_type-round sha256 = refl
attribute_type-round posix_permissions = refl
attribute_type-round user = refl
attribute_type-round group = refl
attribute_type-round size = refl
attribute_type-round access_time = refl
attribute_type-round metadata_change_time = refl
attribute_type-round modification_time = refl
attribute_type-round posix_acl = refl
