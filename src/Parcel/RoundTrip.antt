-- ===== src/Parcel/RoundTrip.antt =====
-- Packing a parcel and unpacking it (agent/common/parcel.c).
use mathlib.Core.Option
use yella.Prelude.{
  ℕ, ◌*◌, ◌/◌, ◌%◌, ◌^◌, ◌<◌, ◌≡◌, refl, ap, arith, ◌∙◌, Bool, true, false, ◌&&◌, List, [], ◌∷◌,
  ◌++◌, Option, none, some, Text,
}
use yella.External.{Utf8, RoundTrips, is_converted, all_converted, Flatcc, ReadsBack}
use yella.Parcel.{
  Compression, uncompressed, lz4, Disposition, more_follow, last, Group, Parcel, FbParcel, Unpacked,
  unpacked, missing_field, compression_to_fb, fb_to_compression, disposition_to_fb,
  fb_to_disposition, payload_to_fb, fb_to_payload, group_to_fb, parcel_to_fb, fb_to_parcel,
  as_double, udate, text_or_none, texts_of, read_group, read_required, pack_parcel, unpack_parcel,
}

-- A parcel with its time cut to the second.
abbrev pub to_second : Parcel → Parcel
to_second pcl = record pcl { time = pcl.time / 1000 * 1000 }

-- What the other side reads of a parcel: nothing of one that is for nobody.
abbrev pub arrived : Parcel → Option Text → Unpacked
arrived pcl none = missing_field
arrived pcl (some recipient) = unpacked (to_second pcl)

compression-round : (c : Compression) → fb_to_compression (compression_to_fb c) ≡ c
unfolding fb_to_compression compression_to_fb
compression-round uncompressed = refl
compression-round lz4 = refl

disposition-round : (d : Disposition) → fb_to_disposition (disposition_to_fb d) ≡ d
unfolding fb_to_disposition disposition_to_fb
disposition-round more_follow = refl
disposition-round last = refl

payload-round : (bs : List ℕ) → fb_to_payload (payload_to_fb bs) ≡ bs
unfolding fb_to_payload payload_to_fb
payload-round [] = refl
payload-round (b ∷ bs) = refl

udate_exact : (n : ℕ) → n < 2 ^ 53 → udate n ≡ n
unfolding as_double
udate_exact n h = ground arith

seconds-round : (t : ℕ) → t < 2 ^ 53 → t % 2 ^ 64 / 1000 * 1000 % 2 ^ 64 ≡ t / 1000 * 1000
seconds-round t h = omega arith

time-round : (t : ℕ) → t < 2 ^ 53 → udate (t % 2 ^ 64 / 1000 * 1000 % 2 ^ 64) ≡ t / 1000 * 1000
time-round t h = ap udate (seconds-round t h) ∙ udate_exact (t / 1000 * 1000) (omega arith)

-- The parts of a conjunction.
both : (a b : Bool) → a && b ≡ true → (a ≡ true) × (b ≡ true)
both true true h = (refl, refl)
both true false h = cc
both false b h = cc

module _ (utf : Utf8) (round : RoundTrips utf) where
  -- Every text of a parcel with this sender is converted.
  abbrev Converted : Parcel → Text → Option Text → Option Group → Type 0
  Converted pcl sender recipient grp =
      all_converted utf (
        sender ∷ text_or_none utf recipient
        ++ pcl.type ∷ text_or_none utf (Option.map (λ (g : Group). g.identifier) grp))
      ≡ true

  group-round :
      (rest : Option Group → Parcel) (pcl : Parcel) (sender recipient : Text) (g : Option Group)
      → Converted pcl sender (some recipient) g
      → read_group utf rest (Option.map (group_to_fb utf) g) ≡ unpacked (rest g)
  unfolding read_group group_to_fb all_converted text_or_none
  group-round rest pcl sender recipient none c = refl
  group-round rest pcl sender recipient (some g) c =
      let (_, c1) = both (is_converted utf sender) _ c in
      let (_, c2) = both (is_converted utf recipient) _ c1 in
      let (_, c3) = both (is_converted utf pcl.type) _ c2 in
      let (c4, _) = both (is_converted utf g.identifier) _ c3 in
      simp (round g.identifier c4, disposition-round)

  fields-round :
      (pcl : Parcel) (sender recipient : Text) (g : Option Group)
      → pcl.sender ≡ some sender
      → pcl.recipient ≡ some recipient
      → pcl.time < 2 ^ 53
      → Converted pcl sender (some recipient) g
      → fb_to_parcel utf
          (parcel_to_fb utf pcl sender)
          (utf.to_utf8 sender)
          (utf.to_utf8 recipient)
          (utf.to_utf8 pcl.type)
          pcl.seq
          pcl.grp
        ≡ to_second pcl
  unfolding parcel_to_fb fb_to_parcel all_converted text_or_none
  fields-round pcl sender recipient g s r t c =
      let (c0, c1) = both (is_converted utf sender) _ c in
      let (c2, c3) = both (is_converted utf recipient) _ c1 in
      let (c4, _) = both (is_converted utf pcl.type) _ c3 in
      ground (
        arith,
        round sender c0,
        round recipient c2,
        round pcl.type c4,
        compression-round pcl.cmp,
        payload-round pcl.payload,
        time-round pcl.time t,
      )

  required-round :
      (pcl : Parcel) (sender : Text) (recipient : Option Text)
      → pcl.sender ≡ some sender
      → pcl.recipient ≡ recipient
      → pcl.time < 2 ^ 53
      → Converted pcl sender recipient pcl.grp
      → let tbl = parcel_to_fb utf pcl sender in
        read_required utf tbl tbl.sender (Option.map utf.to_utf8 recipient) tbl.type tbl.seq
        ≡ arrived pcl recipient
  unfolding read_required parcel_to_fb
  required-round pcl sender none s r t c = refl
  required-round pcl sender (some recipient) s r t c =
      group-round _ pcl sender recipient pcl.grp c
      ∙ ap unpacked (fields-round pcl sender recipient pcl.grp s r t c)

  module _ {B : Type 0} (fb : Flatcc B FbParcel) (reads : ReadsBack fb) where
    -- A parcel with a sender, whatever else it has. If `yella_to_utf8` converts its texts, it is packed, and what is unpacked is the parcel with its time cut
    -- to the second, if it has a recipient; if it has none, it is refused, as a required field is
    -- missing. If a text is not converted, the packing runs into the NULL text. The time is below
    -- 2^53, to which a double is exact; ICU reads back the texts that were converted, and FlatBuffers
    -- the fields that were added.
    pub unpack-pack_parcel :
        (pcl : Parcel) (sender : Text)
        → pcl.sender ≡ some sender
        → pcl.time < 2 ^ 53
        → (all_converted utf (texts_of utf pcl sender) ≡ true
            → (bytes : B) × (pack_parcel utf fb pcl ≡ some bytes)
              × (unpack_parcel utf fb bytes ≡ arrived pcl pcl.recipient))
          × (all_converted utf (texts_of utf pcl sender) ≡ false → pack_parcel utf fb pcl ≡ none)
    unfolding pack_parcel unpack_parcel parcel_to_fb texts_of
    unpack-pack_parcel pcl sender s t = (
      λ c. (
        fb.finalize (parcel_to_fb utf pcl sender),
        rw s (rw c refl),
        ap (λ tbl. read_required utf tbl tbl.sender tbl.recipient tbl.type tbl.seq)
              (reads (parcel_to_fb utf pcl sender))
            ∙ required-round pcl sender pcl.recipient s refl t c,
      ),
      λ c. rw s (rw c refl),
    )
