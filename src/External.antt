-- ===== src/External.antt =====
-- What the code calls of other projects' libraries to write and read messages and files: flatcc's
-- builder and readers of FlatBuffers tables, and ICU's conversions of texts, with the conversion that
-- agent/common/text_util.c makes of them.
use yella.Prelude.{
  ℕ, ◌+◌, ◌≡◌, Bool, true, false, ◌&&◌, List, [], ◌∷◌, Option, none, some, if◌then◌else◌, ltb,
  length, Text,
}

-- The whole of what `u_strToUTF8` and `u_strFromUTF8` of ICU make of a text.
pub record Utf8 : Type 0 where
  pub to_utf8 : Text → Text
  pub from_utf8 : Text → Text

-- Whether `u_strToUTF8` returns `U_ZERO_ERROR` for these bytes: they fit the buffer with a terminator.
unfoldable pub fits : Text → ℕ → Bool
fits bytes capacity = ltb (length bytes) capacity

-- `yella_to_utf8`, NULL as `none`: the second buffer has no room for the terminator, so only a text
-- whose bytes are not more than its characters, one of ASCII, is converted.
unfoldable pub yella_to_utf8 : Utf8 → Text → Option Text
yella_to_utf8 utf str =
    let buf = utf.to_utf8 str in
    if fits buf (length str + 1) then some buf else if fits buf (length buf) then some buf else none

-- Whether texts are converted; `strlen(NULL)` in `create_str` ends the program where one is not.
unfoldable pub is_converted : Utf8 → Text → Bool
is_converted utf str = elim (yella_to_utf8 utf str) [ none ↦ false | some buf ↦ true ]

unfoldable pub all_converted : Utf8 → List Text → Bool
all_converted utf [] = true
all_converted utf (t ∷ ts) = is_converted utf t && all_converted utf ts

-- ICU reads back the texts that are converted, those of ASCII.
abbrev pub RoundTrips : Utf8 → Type 0
RoundTrips utf = (t : Text) → is_converted utf t ≡ true → utf.from_utf8 (utf.to_utf8 t) ≡ t

-- A root table `T` of a schema and the buffers `B` that hold one: `flatcc_builder_finalize_buffer`
-- and the reader `as_root`.
pub record Flatcc (B T : Type 0) : Type 0 where
  pub finalize : T → B
  pub as_root : B → T

-- A buffer has the fields that were added to it.
abbrev pub ReadsBack : {B T : Type 0} → Flatcc B T → Type 0
ReadsBack {T} fb = (t : T) → fb.as_root (fb.finalize t) ≡ t
