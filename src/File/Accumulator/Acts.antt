-- ===== src/File/Accumulator/Acts.antt =====
-- Additions and rounds of the worker in a sequence (agent/plugin/file/accumulator.c).
use yella.Prelude.{
  ℕ, ◌≡◌, refl, Bool, true, false, List, [], ◌∷◌, ◌++◌, Option, none, some, arith, if◌then◌else◌,
  ◌&&◌, Text, text_eq, Bool-cases, inl, inr,
}
use yella.External.{Utf8}
use yella.Sglib.Tree.{TreeOps}
use yella.File.Attribute.{Attribute}
use yella.File.Accumulator.{
  Condition, FileState, MsgNode, Accumulator, push_state, is_tellable, add_accumulator_message,
  worker_round,
}

-- A message is added, for a recipient, a configuration, an element and its attributes, with a
-- condition and at a time; or the worker's wait ends, at its time limit or not.
pub data Act : Type 0 where
  add : Text → Text → Text → Option (List Attribute) → Condition → ℕ → Act
  wake : Bool → Act

abbrev pub state_of : Text → Text → Option (List Attribute) → Condition → ℕ → FileState
state_of config_name elem_name elem cond now = record {
  milliseconds_since_epoch = now;
  config_name = config_name;
  cond = cond;
  file_name = elem_name;
  attrs = elem;
}

-- The states that are added for a recipient, in order.
abbrev pub for_recipient : Text → Text → FileState → List FileState
for_recipient q recipient st = if text_eq q recipient then st ∷ [] else []

abbrev pub added_for : Text → List Act → List FileState
added_for q [] = []
added_for q (add recipient config_name elem_name elem cond now ∷ acts) =
    for_recipient q recipient (state_of config_name elem_name elem cond now) ++ added_for q acts
added_for q (wake limit ∷ acts) = added_for q acts

-- Whether all texts of the messages are converted.
abbrev pub is_told_act : Utf8 → Act → Bool
is_told_act utf (add recipient config_name elem_name elem cond now) =
    is_tellable utf config_name elem_name elem
is_told_act utf (wake limit) = true

abbrev pub are_told_acts : Utf8 → List Act → Bool
are_told_acts utf [] = true
are_told_acts utf (a ∷ acts) = is_told_act utf a && are_told_acts utf acts

module _ {T : Type 0} (ops : TreeOps T MsgNode) (buffer_size : List FileState → ℕ)
    (max_msg_sz : ℕ) where
  unfoldable pub act : Utf8 → Accumulator T → Act → Option (Accumulator T)
  act utf acc (add recipient config_name elem_name elem cond now) =
      add_accumulator_message ops utf acc recipient config_name elem_name elem cond now
  act utf acc (wake limit) = some (worker_round ops buffer_size max_msg_sz acc limit)

  unfoldable pub run : Utf8 → Accumulator T → List Act → Option (Accumulator T)
  run utf acc [] = some acc
  run utf acc (a ∷ acts) = elim (act utf acc a) [ none ↦ none | some acc' ↦ run utf acc' acts ]

  -- The same of messages whose texts are converted.
  unfoldable pub told_act : Accumulator T → Act → Accumulator T
  told_act acc (add recipient config_name elem_name elem cond now) = record acc {
    recipients =
        push_state ops acc.recipients recipient (state_of config_name elem_name elem cond now);
  }
  told_act acc (wake limit) = worker_round ops buffer_size max_msg_sz acc limit

  unfoldable pub told_run : Accumulator T → List Act → Accumulator T
  told_run acc [] = acc
  told_run acc (a ∷ acts) = told_run (told_act acc a) acts

  act-told :
      (utf : Utf8) (acc : Accumulator T) (a : Act)
      → (is_told_act utf a ≡ true → act utf acc a ≡ some (told_act acc a))
        × (is_told_act utf a ≡ false → act utf acc a ≡ none)
  unfolding act told_act add_accumulator_message
  act-told utf acc (add recipient config_name elem_name elem cond now) =
      (λ h. rw h refl, λ h. rw h refl)
  act-told utf acc (wake limit) = (λ h. refl, λ h. absurd (ground arith))

  -- Such a run goes through, and one with a message whose texts are not all converted does not.
  pub run-told :
      (utf : Utf8) (acts : List Act) (acc : Accumulator T)
      → (are_told_acts utf acts ≡ true → run utf acc acts ≡ some (told_run acc acts))
        × (are_told_acts utf acts ≡ false → run utf acc acts ≡ none)
  unfolding run told_run
  run-told utf [] acc = (λ h. refl, λ h. absurd (ground arith))
  run-told utf (a ∷ acts) acc = elim (Bool-cases (is_told_act utf a)) [
    | inl h ↦
        (let (going, ending) = run-told utf acts (told_act acc a) in
          (
            λ e. rw ((act-told utf acc a).0 h, run) (going (ground (arith, h))),
            λ e. rw ((act-told utf acc a).0 h, run) (ending (ground (arith, h))),
          ))
    | inr h ↦ (λ e. absurd (ground (arith, h)), λ e. rw ((act-told utf acc a).1 h, run) refl)
  ]
