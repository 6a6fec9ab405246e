-- ===== src/Spool/Codec.antt =====
-- Reading back what was written: the streams of agent/agent/spool.c over encoded events.
use yella.Prelude.{
  ℕ, ◌+◌, ◌≡◌, refl, sym, ap, ◌∙◌, true, false, List, [], ◌∷◌, ◌++◌, some, arith, ltb, length, take,
  drop, length-append, take-append, drop-append, append_assoc, All,
}
use yella.Spool.Event.{
  Bytes, bytes_of, value_of, encode_part, encode_parts, read_at, Fits, encode_part-Fits, drop-drop,
  length-bytes_of, value_of-bytes_of_four,
}
use yella.Spool.State.{Spool, read_bytes, fread, seek}
use yella.Spool.Read.{skip_parts, read_parts}

pub drop_past :
    (file : Bytes) (off : ℕ) (x rest : Bytes)
    → drop off file ≡ x ++ rest
    → drop (off + length x) file ≡ rest
drop_past file off x rest next =
    sym (drop-drop file off (length x)) ∙ rw next (drop-append x rest (length x) refl)

-- A read of as many bytes as `x` has, where `x` is next in the file.
pub fread_next :
    (s : Spool) (off n : ℕ) (x rest : Bytes)
    → drop off (read_bytes s) ≡ x ++ rest
    → n ≡ length x
    → (fread s (seek off) n ≡ (x, seek (off + n))) × (drop (off + n) (read_bytes s) ≡ rest)
unfolding fread read_at
fread_next s off n x rest next size =
    let got : take n (drop off (read_bytes s)) ≡ x = rw next (take-append x rest n size) in
    let full : ltb (length x) n ≡ false = ground arith in
    (
      rw (got, full, size),
      sym (drop-drop (read_bytes s) off n) ∙ rw next (drop-append x rest n size),
    )

-- The size field of a part, then its data.
pub fread_part :
    (s : Spool) (off : ℕ) (d rest : Bytes)
    → Fits d
    → drop off (read_bytes s) ≡ encode_part d ++ rest
    → (fread s (seek off) 4 ≡ (bytes_of 4 (length d), seek (off + 4)))
      × (value_of (bytes_of 4 (length d)) ≡ length d)
      × (fread s (seek (off + 4)) (length d) ≡ (d, seek (off + 4 + length d)))
      × (drop (off + 4 + length d) (read_bytes s) ≡ rest)
fread_part s off d rest fits next =
    let shape : drop off (read_bytes s) ≡ bytes_of 4 (length d) ++ (d ++ rest) =
      next
      ∙ ap (λ t. t ++ rest) (encode_part-Fits d fits)
      ∙ append_assoc (bytes_of 4 (length d)) d rest in
    let (first, after) =
      fread_next s off 4 (bytes_of 4 (length d)) (d ++ rest) shape
        (sym (length-bytes_of 4 (length d))) in
    let (second, last) = fread_next s (off + 4) (length d) d rest after refl in
    (first, value_of-bytes_of_four (length d) fits, second, last)

pub length-encode_part : (d : Bytes) → Fits d → length (encode_part d) ≡ 4 + length d
length-encode_part d fits =
    rw (encode_part-Fits d fits)
      (omega (arith, length-append (bytes_of 4 (length d)) d, length-bytes_of 4 (length d)))

-- The loop of `spool_pop` reads back the parts that `spool_push` wrote.
pub read_parts-encode_parts :
    (s : Spool) (off : ℕ) (ds : List Bytes) (rest : Bytes)
    → All Fits ds
    → drop off (read_bytes s) ≡ encode_parts ds ++ rest
    → read_parts s (seek off) (length ds) ≡ (some ds, seek (off + length (encode_parts ds)))
unfolding read_parts encode_parts
read_parts-encode_parts s off [] rest fits next = ap (λ k. (some [], seek k)) (omega arith)
read_parts-encode_parts s off (d ∷ ds) rest fits next =
    let (sized, value, stored, after) =
      fread_part s off d (encode_parts ds ++ rest) fits.0
        (next ∙ append_assoc (encode_part d) (encode_parts ds) rest) in
    let ih = read_parts-encode_parts s (off + 4 + length d) ds rest fits.1 after in
    let full : ltb (length d) (length d) ≡ false = ground arith in
    let whole : ltb (length (bytes_of 4 (length d))) 4 ≡ false =
      ground (arith, length-bytes_of 4 (length d)) in
    let total : off + 4 + length d + length (encode_parts ds)
        ≡ off + length (encode_part d ++ encode_parts ds) =
      omega (arith, length-append (encode_part d) (encode_parts ds), length-encode_part d fits.0) in
    rw (sized, value, stored, whole, full, ih, total)

-- The fast forward of `advance_to_next_unvisited` passes over those parts.
pub skip_parts-encode_parts :
    (s : Spool) (off : ℕ) (ds : List Bytes) (rest : Bytes)
    → All Fits ds
    → drop off (read_bytes s) ≡ encode_parts ds ++ rest
    → skip_parts s (seek off) (length ds) ≡ (true, seek (off + length (encode_parts ds)))
unfolding skip_parts encode_parts
skip_parts-encode_parts s off [] rest fits next = ap (λ k. (true, seek k)) (omega arith)
skip_parts-encode_parts s off (d ∷ ds) rest fits next =
    let (sized, value, stored, after) =
      fread_part s off d (encode_parts ds ++ rest) fits.0
        (next ∙ append_assoc (encode_part d) (encode_parts ds) rest) in
    let ih = skip_parts-encode_parts s (off + 4 + length d) ds rest fits.1 after in
    let full : ltb (length d) (length d) ≡ false = ground arith in
    let whole : ltb (length (bytes_of 4 (length d))) 4 ≡ false =
      ground (arith, length-bytes_of 4 (length d)) in
    let total : off + 4 + length d + length (encode_parts ds)
        ≡ off + length (encode_part d ++ encode_parts ds) =
      omega (arith, length-append (encode_part d) (encode_parts ds), length-encode_part d fits.0) in
    rw (sized, value, whole, ih, total)
