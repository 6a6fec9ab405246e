-- ===== src/File/Attribute/Compare.antt =====
-- The comparison of attributes (agent/plugin/file/attribute.c: compare_attributes).
use yella.Prelude.{
  ℕ, ◌+◌, ◌^◌, ◌<◌, ◌≡◌, refl, arith, Bool, List, [], ◌∷◌, ◌++◌, compare, Ordering, length,
  length-append, if◌then◌else◌, sign32,
}
use yella.File.Attribute.{
  FileType, block_special, character_special, directory, fifo, symbolic_link, regular, socket,
  whiteout, Permission, Permissions, UserGroup, EntryType, user_entry, group_entry, mask_entry,
  user_obj_entry, group_obj_entry, other_entry, AclEntry, Attribute, file_type, sha256,
  posix_permissions, user, group, size, access_time, metadata_change_time, modification_time,
  posix_acl,
}

-- The enumerators' numbers.
abbrev pub type_index : Attribute → ℕ
type_index (file_type ft) = 0
type_index (sha256 bytes) = 1
type_index (posix_permissions p) = 2
type_index (user g) = 3
type_index (group g) = 4
type_index (size n) = 5
type_index (access_time n) = 6
type_index (metadata_change_time n) = 7
type_index (modification_time n) = 8
type_index (posix_acl es) = 9

abbrev file_type_index : FileType → ℕ
file_type_index block_special = 0
file_type_index character_special = 1
file_type_index directory = 2
file_type_index fifo = 3
file_type_index symbolic_link = 4
file_type_index regular = 5
file_type_index socket = 6
file_type_index whiteout = 7

abbrev entry_type_index : EntryType → ℕ
entry_type_index user_entry = 0
entry_type_index group_entry = 1
entry_type_index mask_entry = 2
entry_type_index user_obj_entry = 3
entry_type_index group_obj_entry = 4
entry_type_index other_entry = 5

-- The first result, or the second where the first is zero.
abbrev then_by : Ordering → Ordering → Ordering
then_by Ordering.lt o = Ordering.lt
then_by Ordering.eq o = o
then_by Ordering.gt o = Ordering.gt

-- `u_strcmp`, and `memcmp` of as many bytes as both have.
unfoldable pub compare_units : List ℕ → List ℕ → Ordering
compare_units [] [] = Ordering.eq
compare_units [] (b ∷ t) = Ordering.lt
compare_units (a ∷ s) [] = Ordering.gt
compare_units (a ∷ s) (b ∷ t) = then_by (compare a b) (compare_units s t)

abbrev byte_of : Bool → ℕ
byte_of b = if b then 1 else 0

abbrev permission_bytes : Permission → List ℕ
permission_bytes p = byte_of p.read ∷ byte_of p.write ∷ byte_of p.execute ∷ []

abbrev permissions_bytes : Permissions → List ℕ
permissions_bytes p =
    permission_bytes p.owner
    ++ (permission_bytes p.group
        ++ (permission_bytes p.other
            ++ (byte_of p.set_uid ∷ byte_of p.set_gid ∷ byte_of p.sticky ∷ [])))

unfoldable pub compare_user_groups : UserGroup → UserGroup → Ordering
compare_user_groups g h = then_by (sign32 g.id h.id) (compare_units g.name h.name)

unfoldable pub compare_entries : AclEntry → AclEntry → Ordering
compare_entries e f = then_by (compare (entry_type_index e.type) (entry_type_index f.type)) (
    then_by (compare_user_groups e.usr_grp f.usr_grp)
      (compare_units (permission_bytes e.perm) (permission_bytes f.perm)))

-- The loop over the entries of two lists of one length: each result replaces the one before.
unfoldable pub compare_acls : Ordering → List AclEntry → List AclEntry → Ordering
compare_acls rc (e ∷ es) (f ∷ fs) = compare_acls (compare_entries e f) es fs
compare_acls rc _ _ = rc

unfoldable pub compare_values : Attribute → Attribute → Ordering
compare_values (file_type a) (file_type b) = compare (file_type_index a) (file_type_index b)
compare_values (sha256 a) (sha256 b) = then_by (sign32 (length a) (length b)) (compare_units a b)
compare_values (posix_permissions a) (posix_permissions b) =
    compare_units (permissions_bytes a) (permissions_bytes b)
compare_values (user a) (user b) = compare_user_groups a b
compare_values (group a) (group b) = compare_user_groups a b
compare_values (size a) (size b) = sign32 a b
compare_values (access_time a) (access_time b) = sign32 a b
compare_values (metadata_change_time a) (metadata_change_time b) = sign32 a b
compare_values (modification_time a) (modification_time b) = sign32 a b
compare_values (posix_acl a) (posix_acl b) =
    then_by (sign32 (length a) (length b)) (compare_acls Ordering.eq a b)
compare_values _ _ = Ordering.eq

-- `compare_attributes`, as the sign of the `int` that it returns.
unfoldable pub compare_attributes : Attribute → Attribute → Ordering
compare_attributes lhs rhs =
    then_by (compare (type_index lhs) (type_index rhs)) (compare_values lhs rhs)

sign32_refl : (n : ℕ) → n < 2 ^ 64 → sign32 n n ≡ Ordering.eq
sign32_refl n small = ground arith

acls_last :
    (rc : Ordering) (es fs : List AclEntry) (e f : AclEntry)
    → length es ≡ length fs
    → compare_acls rc (es ++ e ∷ []) (fs ++ f ∷ []) ≡ compare_entries e f
unfolding compare_acls
acls_last rc [] [] e f h = refl
acls_last rc [] (f' ∷ fs) e f h = absurd (omega arith)
acls_last rc (e' ∷ es) [] e f h = absurd (omega arith)
acls_last rc (e' ∷ es) (f' ∷ fs) e f h = acls_last (compare_entries e' f') es fs e f (omega arith)

-- Two access control lists of one length compare as their last entries do, whatever the entries
-- before those are.
pub compare_attributes-last_entry :
    (es fs : List AclEntry) (e f : AclEntry)
    → length es ≡ length fs
    → length es + 1 < 2 ^ 64
    → compare_attributes (posix_acl (es ++ e ∷ [])) (posix_acl (fs ++ f ∷ [])) ≡ compare_entries e f
unfolding compare_attributes compare_values
compare_attributes-last_entry es fs e f same small =
    let n = length-append es (e ∷ []) in
    let m = length-append fs (f ∷ []) in
    let level : sign32 (length (es ++ e ∷ [])) (length (fs ++ f ∷ [])) ≡ Ordering.eq =
      rw (n, m, same) (sign32_refl (length fs + 1) (omega arith)) in
    rw level (acls_last Ordering.eq es fs e f same)

-- Sizes compare as the numbers do if these differ by less than 2^31, and as equal if they differ by
-- 2^32.
pub compare_attributes-size :
    (n m : ℕ)
    → n < 2 ^ 63
    → m < 2 ^ 63
    → (n < m + 2 ^ 31 → m < n + 2 ^ 31 → compare_attributes (size n) (size m) ≡ compare n m)
      × (m ≡ n + 2 ^ 32 → compare_attributes (size n) (size m) ≡ Ordering.eq)
unfolding compare_attributes compare_values
compare_attributes-size n m small small' = (λ h k. ground arith, λ h. ground arith)
