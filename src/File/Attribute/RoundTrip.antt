-- ===== src/File/Attribute/RoundTrip.antt =====
-- Packing an attribute and creating it again (agent/plugin/file/attribute.c).
use yella.Prelude.{
  Bool, true, false, ◌&&◌, ◌≡◌, refl, ap, arith, List, [], ◌∷◌, ◌++◌, none, some, All, Text, ◌⊎◌,
  inl, inr, Option-cases,
}
use yella.External.{Utf8, RoundTrips, is_converted, all_converted}
use yella.File.Attribute.{
  attribute_table, entry_names, names_of_entries, names_of, FbAttr, FileType, Permission,
  Permissions, UserGroup, EntryType, user_entry, group_entry, mask_entry, user_obj_entry,
  group_obj_entry, other_entry, AclEntry, Attribute, file_type, sha256, posix_permissions, user,
  group, size, access_time, metadata_change_time, modification_time, posix_acl, FbEntry,
  file_type_to_fb, fb_to_file_type, entry_type_to_fb, pack_permissions, permissions_from_table,
  pack_entry, pack_entries, entry_from_table, entries_from_table, pack_attribute,
  create_attribute_from_table,
}

-- An entry that names a user or a group.
abbrev pub IsNamed : AclEntry → Type 0
IsNamed e = (e.type ≡ user_entry) ⊎ (e.type ≡ group_entry)

-- What has no entry of the other types.
abbrev pub IsPlain : Attribute → Type 0
IsPlain (posix_acl es) = All IsNamed es
IsPlain _ = Unit

file_type-round : (ft : FileType) → fb_to_file_type (file_type_to_fb ft) ≡ some ft
unfolding fb_to_file_type file_type_to_fb
file_type-round ft = ground arith

permissions-round : (p : Permissions) → permissions_from_table (pack_permissions p) ≡ p
unfolding permissions_from_table pack_permissions
permissions-round p = ground arith

-- The parts of a conjunction.
both : (a b : Bool) → a && b ≡ true → (a ≡ true) × (b ≡ true)
both true true h = (refl, refl)
both true false h = cc
both false b h = cc

module _ (utf : Utf8) (round : RoundTrips utf) where
  user_group-round :
      (g : UserGroup) (more : List Text)
      → all_converted utf (g.name ∷ more) ≡ true
      → record g { name = utf.from_utf8 (utf.to_utf8 g.name) } ≡ g
  unfolding all_converted
  user_group-round g more c =
      ap (λ (n : Text). record g { name = n }) (round g.name (both (is_converted utf g.name) _ c).0)

  entry-named :
      (ty : EntryType) (g : UserGroup) (p : Permission) (more : List Text)
      → (ty ≡ user_entry) ⊎ (ty ≡ group_entry)
      → all_converted utf (entry_names utf ty g ++ more) ≡ true
      → let e : AclEntry = record { type = ty; usr_grp = g; perm = p } in
        entry_from_table utf (pack_entry utf e) ≡ some e
  unfolding entry_from_table pack_entry entry_type_to_fb entry_names
  entry-named user_entry g p more named c =
      ap (λ q. some (record { type = user_entry; usr_grp = q; perm = p }))
        (user_group-round g more c)
  entry-named group_entry g p more named c =
      ap (λ q. some (record { type = group_entry; usr_grp = q; perm = p }))
        (user_group-round g more c)
  entry-named mask_entry g p more named c = absurd (elim named [ inl h ↦ cc | inr h ↦ cc ])
  entry-named user_obj_entry g p more named c = absurd (elim named [ inl h ↦ cc | inr h ↦ cc ])
  entry-named group_obj_entry g p more named c = absurd (elim named [ inl h ↦ cc | inr h ↦ cc ])
  entry-named other_entry g p more named c = absurd (elim named [ inl h ↦ cc | inr h ↦ cc ])

  entries_step :
      (t : FbEntry) (ts : List FbEntry) (e : AclEntry) (es : List AclEntry)
      → entry_from_table utf t ≡ some e
      → entries_from_table utf ts ≡ some es
      → entries_from_table utf (t ∷ ts) ≡ some (e ∷ es)
  unfolding entries_from_table
  entries_step t ts e es h k = rw (h, k, entries_from_table) refl

  last_converted :
      (ty : EntryType) (g : UserGroup) (more : List Text)
      → all_converted utf (entry_names utf ty g ++ more) ≡ true
      → all_converted utf more ≡ true
  unfolding entry_names all_converted
  last_converted user_entry g more c = (both (is_converted utf g.name) _ c).1
  last_converted group_entry g more c = (both (is_converted utf g.name) _ c).1
  last_converted mask_entry g more c = c
  last_converted user_obj_entry g more c = c
  last_converted group_obj_entry g more c = c
  last_converted other_entry g more c = c

  entries-round :
      (es : List AclEntry)
      → All IsNamed es
      → all_converted utf (names_of_entries utf es) ≡ true
      → entries_from_table utf (pack_entries utf es) ≡ some es
  unfolding pack_entries entries_from_table names_of_entries
  entries-round [] named c = refl
  entries-round (e ∷ es) named c =
      entries_step (pack_entry utf e) (pack_entries utf es) e es
        (entry-named e.type e.usr_grp e.perm (names_of_entries utf es) named.0 c)
        (entries-round es named.1 (last_converted e.type e.usr_grp (names_of_entries utf es) c))

  table-round :
      (a : Attribute)
      → IsPlain a
      → all_converted utf (names_of utf a) ≡ true
      → create_attribute_from_table utf (attribute_table utf a) ≡ some a
  unfolding create_attribute_from_table attribute_table names_of
  table-round (file_type ft) h c = rw (file_type-round ft) refl
  table-round (sha256 bytes) h c = refl
  table-round (posix_permissions p) h c = ap (λ q. some (posix_permissions q)) (permissions-round p)
  table-round (user g) h c = ap (λ q. some (user q)) (user_group-round g [] c)
  table-round (group g) h c = ap (λ q. some (group q)) (user_group-round g [] c)
  table-round (size n) h c = refl
  table-round (access_time n) h c = refl
  table-round (metadata_change_time n) h c = refl
  table-round (modification_time n) h c = refl
  table-round (posix_acl []) h c = refl
  table-round (posix_acl (e ∷ es)) h c = rw (entries-round (e ∷ es) h c) refl

  -- An attribute whose access control list, should it be one, names a user or a group in every entry.
  -- If `yella_to_utf8` converts its names, it is packed, and created again as it was, whatever its
  -- type; if a name is not converted, the packing runs into the NULL name. ICU reads back what is
  -- converted.
  pub create-pack_attribute :
      (a : Attribute)
      → IsPlain a
      → (all_converted utf (names_of utf a) ≡ true
          → (t : FbAttr) × (pack_attribute utf a ≡ some t)
            × (create_attribute_from_table utf t ≡ some a))
        × (all_converted utf (names_of utf a) ≡ false → pack_attribute utf a ≡ none)
  unfolding pack_attribute
  create-pack_attribute a h =
      (λ c. (attribute_table utf a, rw c refl, table-round a h c), λ c. rw c refl)

module _ (utf : Utf8) where
  unnamed_entry :
      (ty : EntryType) (g : UserGroup) (p : Permission)
      → ¬ ((ty ≡ user_entry) ⊎ (ty ≡ group_entry))
      → entry_from_table utf (pack_entry utf (record { type = ty; usr_grp = g; perm = p })) ≡ none
  unfolding entry_from_table pack_entry
  unnamed_entry user_entry g p nameless = absurd (nameless (inl refl))
  unnamed_entry group_entry g p nameless = absurd (nameless (inr refl))
  unnamed_entry mask_entry g p nameless = refl
  unnamed_entry user_obj_entry g p nameless = refl
  unnamed_entry group_obj_entry g p nameless = refl
  unnamed_entry other_entry g p nameless = refl

  none_first :
      (t : FbEntry) (ts : List FbEntry)
      → entry_from_table utf t ≡ none
      → entries_from_table utf (t ∷ ts) ≡ none
  unfolding entries_from_table
  none_first t ts h = rw (h, entries_from_table) refl

  none_later :
      (t : FbEntry) (ts : List FbEntry)
      → entries_from_table utf ts ≡ none
      → entries_from_table utf (t ∷ ts) ≡ none
  unfolding entries_from_table
  none_later t ts h = elim (Option-cases (entry_from_table utf t)) [
    | inl gone ↦ rw (gone, entries_from_table) refl
    | inr (e, there) ↦ rw (there, h, entries_from_table) refl
  ]

  unnamed_entries :
      (before after : List AclEntry) (e : AclEntry)
      → ¬ IsNamed e
      → entries_from_table utf (pack_entries utf (before ++ e ∷ after)) ≡ none
  unfolding pack_entries
  unnamed_entries [] after e nameless =
      none_first (pack_entry utf e) (pack_entries utf after)
        (unnamed_entry e.type e.usr_grp e.perm nameless)
  unnamed_entries (b ∷ before) after e nameless =
      none_later (pack_entry utf b) (pack_entries utf (before ++ e ∷ after))
        (unnamed_entries before after e nameless)

  packed_acl :
      (es : List AclEntry)
      → entries_from_table utf (pack_entries utf es) ≡ none
      → create_attribute_from_table utf (attribute_table utf (posix_acl es)) ≡ none
  unfolding create_attribute_from_table attribute_table entries_from_table pack_entries
  packed_acl [] h = cc
  packed_acl (e ∷ es) h = rw h refl

  -- An access control list with an entry that names neither a user nor a group, as that of a mask
  -- or of the owner, is packed without that entry's user or group, and its creation runs into the
  -- table that is not there.
  pub create-pack_unnamed :
      (before after : List AclEntry) (e : AclEntry)
      → ¬ IsNamed e
      → create_attribute_from_table utf (attribute_table utf (posix_acl (before ++ e ∷ after)))
        ≡ none
  create-pack_unnamed before after e nameless =
      packed_acl (before ++ e ∷ after) (unnamed_entries before after e nameless)
