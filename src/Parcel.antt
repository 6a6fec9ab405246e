-- ===== src/Parcel.antt =====
-- Parcels, the messages between the agent and the router (agent/common/parcel.c), and the
-- FlatBuffers table that holds one (agent/common/serialization/public/parcel.fbs).
use mathlib.Core.Option
use yella.Prelude.{
  ℕ, zero, suc, ◌+◌, ◌*◌, ◌/◌, ◌%◌, ◌^◌, List, [], ◌∷◌, ◌++◌, Option, none, some, ◌==◌, ltb,
  if◌then◌else◌, Text,
}
use yella.External.{Utf8, all_converted, Flatcc}
pub mod RoundTrip
mod Tests

-- `yella_compression` and `yella_group_disposition`
pub data Compression : Type 0 where
  uncompressed lz4 : Compression

pub data Disposition : Type 0 where
  more_follow last : Disposition

pub record Group : Type 0 where
  pub identifier : Text
  pub disposition : Disposition

pub record Sequence : Type 0 where
  pub major : ℕ
  pub minor : ℕ

-- `yella_parcel`: the time in whole milliseconds, a double, a NULL text as `none`, and the payload with its size.
pub record Parcel : Type 0 where
  pub time : ℕ
  pub sender : Option Text
  pub recipient : Option Text
  pub type : Text
  pub cmp : Compression
  pub seq : Sequence
  pub grp : Option Group
  pub payload : List ℕ

-- The tables, with texts in UTF-8. What was not added is `none`, or the schema's default of a number.
pub record FbGroup : Type 0 where
  pub id : Option Text
  pub disposition : ℕ

pub record FbParcel : Type 0 where
  pub seconds_since_epoch : ℕ
  pub sender : Option Text
  pub recipient : Option Text
  pub type : Option Text
  pub cmp : ℕ
  pub seq : Option Sequence
  pub grp : Option FbGroup
  pub payload : Option (List ℕ)

-- `yella_create_parcel`
unfoldable pub create_parcel : ℕ → Text → Text → Parcel
create_parcel now recipient type = record {
  time = now;
  sender = none;
  recipient = some recipient;
  type = type;
  cmp = uncompressed;
  seq = record { major = 0; minor = 0 };
  grp = none;
  payload = [];
}

unfoldable pub compression_to_fb : Compression → ℕ
compression_to_fb lz4 = 1
compression_to_fb uncompressed = 0

unfoldable pub fb_to_compression : ℕ → Compression
fb_to_compression n = if n == 1 then lz4 else uncompressed

unfoldable pub disposition_to_fb : Disposition → ℕ
disposition_to_fb more_follow = 0
disposition_to_fb last = 1

unfoldable pub fb_to_disposition : ℕ → Disposition
fb_to_disposition n = if n == 0 then more_follow else last

-- The vector of the payload, added if it is not empty, and the payload of a vector.
unfoldable pub payload_to_fb : List ℕ → Option (List ℕ)
payload_to_fb [] = none
payload_to_fb (b ∷ bs) = some (b ∷ bs)

unfoldable pub fb_to_payload : Option (List ℕ) → List ℕ
fb_to_payload none = []
fb_to_payload (some bs) = bs

-- A number as the nearest multiple of a unit, at half the even one.
unfoldable pub round_to : ℕ → ℕ → ℕ
round_to unit n =
    let q = n / unit in
    let rest = n % unit in
    if ltb (2 * rest) unit
    then q * unit
    else if 2 * rest == unit
    then (q + q % 2) * unit
    else (q + 1) * unit

-- A 64-bit number as a double, which has 53 bits: the unit doubles until these are enough.
unfoldable pub as_double : ℕ → ℕ → ℕ → ℕ
as_double zero unit n = round_to unit n
as_double (suc fuel) unit n =
    let rest = as_double fuel (2 * unit) n in
    if ltb n (unit * 2 ^ 53) then (if unit == 1 then n else round_to unit n) else rest

-- `UDate`, a double, of a number of 64 bits
abbrev pub udate : ℕ → ℕ
udate n = as_double 11 1 n

-- What a read of a parcel comes to: the parcel, NULL where a required field is not there, or a
-- NULL string.
pub data Unpacked : Type 0 where
  unpacked : Parcel → Unpacked
  missing_field : Unpacked
  null_text : Unpacked

module _ (utf : Utf8) where
  unfoldable pub group_to_fb : Group → FbGroup
  group_to_fb g = record {
    id = some (utf.to_utf8 g.identifier);
    disposition = disposition_to_fb g.disposition;
  }

  -- The table that `yella_pack_parcel` builds, of a parcel with this sender
  unfoldable pub parcel_to_fb : Parcel → Text → FbParcel
  parcel_to_fb pcl sender = record {
    seconds_since_epoch = pcl.time % 2 ^ 64 / 1000;
    sender = some (utf.to_utf8 sender);
    recipient = Option.map utf.to_utf8 pcl.recipient;
    type = some (utf.to_utf8 pcl.type);
    cmp = compression_to_fb pcl.cmp;
    seq = some pcl.seq;
    grp = Option.map group_to_fb pcl.grp;
    payload = payload_to_fb pcl.payload;
  }

  -- `yella_unpack_parcel` behind the tests of the required fields
  unfoldable pub fb_to_parcel : FbParcel → Text → Text → Text → Sequence → Option Group → Parcel
  fb_to_parcel tbl sender recipient type seq grp = record {
    time = udate (tbl.seconds_since_epoch * 1000 % 2 ^ 64);
    sender = some (utf.from_utf8 sender);
    recipient = some (utf.from_utf8 recipient);
    type = utf.from_utf8 type;
    cmp = fb_to_compression tbl.cmp;
    seq = seq;
    grp = grp;
    payload = fb_to_payload tbl.payload;
  }

  unfoldable pub read_group : (Option Group → Parcel) → Option FbGroup → Unpacked
  read_group rest none = unpacked (rest none)
  read_group rest (some grp) = elim grp.id [
    | none ↦ null_text
    | some id ↦ unpacked (
        rest (
          some (record {
            identifier = utf.from_utf8 id;
            disposition = fb_to_disposition grp.disposition;
          })))
  ]

  unfoldable pub read_required :
      FbParcel → Option Text → Option Text → Option Text → Option Sequence → Unpacked
  read_required tbl (some sender) (some recipient) (some type) (some seq) =
      read_group (fb_to_parcel tbl sender recipient type seq) tbl.grp
  read_required tbl _ _ _ _ = missing_field

  -- The texts of a parcel, which are converted.
  unfoldable pub text_or_none : Option Text → List Text
  text_or_none none = []
  text_or_none (some t) = t ∷ []

  unfoldable pub texts_of : Parcel → Text → List Text
  texts_of pcl sender =
      sender ∷ text_or_none pcl.recipient
      ++ pcl.type ∷ text_or_none (Option.map (λ (g : Group). g.identifier) pcl.grp)

  module _ {B : Type 0} (fb : Flatcc B FbParcel) where
    -- `yella_pack_parcel`; `none` is the use of a NULL text: a NULL sender, or a text that is not
    -- converted.
    unfoldable pub pack_parcel : Parcel → Option B
    pack_parcel pcl = elim pcl.sender [
      | none ↦ none
      | some sender ↦
          if all_converted utf (texts_of pcl sender)
          then some (fb.finalize (parcel_to_fb pcl sender))
          else none
    ]

    -- `yella_unpack_parcel`
    unfoldable pub unpack_parcel : B → Unpacked
    unpack_parcel bytes =
        let tbl = fb.as_root bytes in read_required tbl tbl.sender tbl.recipient tbl.type tbl.seq
