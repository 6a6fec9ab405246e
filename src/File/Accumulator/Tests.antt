-- ===== src/File/Accumulator/Tests.antt =====
-- The accumulator's theorem at a concrete input, with a list for the tree.
use yella.Prelude.{◌≡◌, refl, arith, true, false, some, List, [], ◌∷◌, none, length, Text, codes}
use yella.External.{Utf8, fits, yella_to_utf8, is_converted, all_converted}
use yella.Sglib.Samples.{tree_ops, tree_laws}
use yella.File.Accumulator.{
  added, removed, is_packable, is_tellable, MsgNode, Accumulator, create_accumulator,
  stop_accumulator,
}
use yella.File.Accumulator.Delivery.{delivered, Numbered}
use yella.File.Accumulator.Acts.{Act, add, wake, run, added_for, are_told_acts}
use yella.File.Accumulator.Sent.{stop_accumulator_lem}

abbrev acts : List Act
acts =
    add (codes "me") (codes "etc") (codes "/etc/a") none removed 5
    ∷ add (codes "you") (codes "etc") (codes "/etc/b") none added 6
    ∷ wake false
    ∷ add (codes "me") (codes "etc") (codes "/etc/c") none removed 7
    ∷ []

-- Names of ASCII letters are their own UTF-8.
abbrev ascii : Utf8
ascii = record { to_utf8 = λ t. t; from_utf8 = λ t. t }

stop_accumulator_lem_example :
    let ran = run tree_ops length 1 ascii (create_accumulator tree_ops) acts in
    (are_told_acts ascii acts ≡ true
      → (acc : Accumulator (List (Text × MsgNode))) × (ran ≡ some acc)
        × Numbered 0 (stop_accumulator tree_ops acc).sent
        × ((q : Text) → delivered q (stop_accumulator tree_ops acc).sent ≡ added_for q acts))
    × (are_told_acts ascii acts ≡ false → ran ≡ none)
stop_accumulator_lem_example =
    stop_accumulator_lem tree_ops tree_laws ascii length 1 acts (omega arith)

acts_told : are_told_acts ascii acts ≡ true
unfolding is_tellable is_packable all_converted is_converted yella_to_utf8 fits
acts_told = refl
