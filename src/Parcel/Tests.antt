-- ===== src/Parcel/Tests.antt =====
-- The round trip of parcels at a concrete input: buffers that are the tables, and texts in ASCII.
use yella.Prelude.{◌≡◌, refl, arith, [], ◌∷◌, some, none, true, false, codes}
use yella.External.{Utf8, fits, yella_to_utf8, is_converted, all_converted, Flatcc}
use yella.Parcel.{
  uncompressed, last, Parcel, FbParcel, unpacked, text_or_none, texts_of, pack_parcel,
  unpack_parcel,
}
use yella.Parcel.RoundTrip.{to_second, unpack-pack_parcel}

abbrev ascii : Utf8
ascii = record { to_utf8 = λ t. t; from_utf8 = λ t. t }

abbrev tables : Flatcc FbParcel FbParcel
tables = record { finalize = λ t. t; as_root = λ t. t }

abbrev parcel : Parcel
parcel = record {
  time = 1234567;
  sender = some (codes "agent");
  recipient = some (codes "router");
  type = codes "file.change";
  cmp = uncompressed;
  seq = record { major = 3; minor = 7 };
  grp = some (record { identifier = codes "g"; disposition = last });
  payload = 1 ∷ 2 ∷ [];
}

unpack-pack_parcel_example :
    (all_converted ascii (texts_of ascii parcel (codes "agent")) ≡ true
      → (bytes : FbParcel) × (pack_parcel ascii tables parcel ≡ some bytes)
        × (unpack_parcel ascii tables bytes ≡ unpacked (to_second parcel)))
    × (all_converted ascii (texts_of ascii parcel (codes "agent")) ≡ false
        → pack_parcel ascii tables parcel ≡ none)
unpack-pack_parcel_example =
    unpack-pack_parcel ascii (λ t h. refl) tables (λ t. refl) parcel (codes "agent") refl
      (omega arith)

-- The texts of the parcel are converted.
parcel_converted : all_converted ascii (texts_of ascii parcel (codes "agent")) ≡ true
unfolding all_converted is_converted yella_to_utf8 fits texts_of text_or_none
parcel_converted = refl
