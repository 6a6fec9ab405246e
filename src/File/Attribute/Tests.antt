-- ===== src/File/Attribute/Tests.antt =====
-- The theorems on attributes at concrete ones.
use yella.Prelude.{none, false, ◌≡◌, refl, true, false, [], ◌∷◌, some, codes, inl}
use yella.External.{Utf8, all_converted}
use yella.File.Attribute.{
  AclEntry, user_entry, posix_acl, FbAttr, names_of, pack_attribute, create_attribute_from_table,
}
use yella.File.Attribute.RoundTrip.{create-pack_attribute}

-- Names of ASCII letters are their own UTF-8.
abbrev ascii : Utf8
ascii = record { to_utf8 = λ t. t; from_utf8 = λ t. t }

abbrev root : AclEntry
root = record {
  type = user_entry;
  usr_grp = record { id = 0; name = codes "root" };
  perm = record { read = true; write = true; execute = false };
}

create-pack_attribute_example :
    let a = posix_acl (root ∷ root ∷ []) in
    (all_converted ascii (names_of ascii a) ≡ true
      → (t : FbAttr) × (pack_attribute ascii a ≡ some t)
        × (create_attribute_from_table ascii t ≡ some a))
    × (all_converted ascii (names_of ascii a) ≡ false → pack_attribute ascii a ≡ none)
create-pack_attribute_example =
    create-pack_attribute ascii (λ t h. refl) (posix_acl (root ∷ root ∷ []))
      (inl refl, (inl refl, tt))
