-- ===== src/File/Accumulator.antt =====
-- The messages that wait to be sent (agent/plugin/file/accumulator.c).
use yella.Prelude.{
  ℕ, ◌+◌, ◌^◌, ◌%◌, Bool, true, false, not, ◌&&◌, ◌||◌, List, [], ◌∷◌, ◌++◌, Option, none, some,
  ltb, leb, if◌then◌else◌, Text,
}
use yella.External.{Utf8, all_converted}
use yella.Sglib.Tree.{TreeOps}
use yella.File.Attribute.{Attribute, names_of}
pub mod Delivery
pub mod Runs
pub mod Acts
pub mod Once
pub mod Sent
mod Tests

-- `condition`
pub data Condition : Type 0 where
  added changed removed : Condition

-- `file_state`; no attributes were added to the table of an element that is not there.
pub record FileState : Type 0 where
  pub milliseconds_since_epoch : ℕ
  pub config_name : Text
  pub cond : Condition
  pub file_name : Text
  pub attrs : Option (List Attribute)

-- `msg_node` but for its recipient, the key, and the links; the builder as the states in it.
pub record MsgNode : Type 0 where
  pub bld : List FileState
  pub count : ℕ

-- What goes to the agent's `send_message`.
pub record StatesParcel : Type 0 where
  pub recipient : Text
  pub minor : ℕ
  pub states : List FileState

-- `struct accumulator` with the worker's `minor_seq`; `sent` are the calls of `send_message`.
pub record Accumulator (T : Type 0) : Type 0 where
  pub recipients : T
  pub should_stop : Bool
  pub minor_seq : ℕ
  pub sent : List StatesParcel

abbrev pub empty_node : MsgNode
empty_node = record { bld = []; count = 0 }

-- Whether `yella_to_utf8` converts all names that attributes are packed with.
unfoldable pub are_packable : Utf8 → List Attribute → Bool
are_packable utf [] = true
are_packable utf (a ∷ attrs) = all_converted utf (names_of utf a) && are_packable utf attrs

unfoldable pub is_packable : Utf8 → Option (List Attribute) → Bool
is_packable utf none = true
is_packable utf (some attrs) = are_packable utf attrs

-- Whether it converts all texts of a message.
unfoldable pub is_tellable : Utf8 → Text → Text → Option (List Attribute) → Bool
is_tellable utf config_name elem_name elem =
    all_converted utf (config_name ∷ elem_name ∷ []) && is_packable utf elem

module _ {T : Type 0} (ops : TreeOps T MsgNode) where
  -- `create_accumulator`
  unfoldable pub create_accumulator : Accumulator T
  create_accumulator = record {
    recipients = ops.empty;
    should_stop = false;
    minor_seq = 0;
    sent = [];
  }

  abbrev pub pushed : MsgNode → FileState → MsgNode
  pushed n st = record { bld = n.bld ++ st ∷ []; count = (n.count + 1) % 2 ^ 64 }

  -- The tree with a recipient's node, made if it was not there, and a state pushed to it.
  unfoldable pub push_state : T → Text → FileState → T
  push_state t recipient st = elim (ops.find t recipient) [
    | none ↦ ops.set (ops.add t recipient empty_node) recipient (pushed empty_node st)
    | some found ↦ ops.set t recipient (pushed found st)
  ]

  -- `add_accumulator_message`, at a time `now`. The attributes are those of the element. `none` is
  -- `create_str` of a text that was not converted.
  unfoldable pub add_accumulator_message :
      Utf8
      → Accumulator T
      → Text
      → Text
      → Text
      → Option (List Attribute)
      → Condition
      → ℕ
      → Option (Accumulator T)
  add_accumulator_message utf acc recipient config_name elem_name elem cond now =
      if is_tellable utf config_name elem_name elem
      then some (record acc {
        recipients = push_state acc.recipients recipient (record {
          milliseconds_since_epoch = now;
          config_name = config_name;
          cond = cond;
          file_name = elem_name;
          attrs = elem;
        });
      })
      else none

  -- One node that is sent: its builder starts anew.
  unfoldable pub send_node : Accumulator T → Text → MsgNode → Accumulator T
  send_node acc recipient cur = record acc {
    recipients = ops.set acc.recipients recipient empty_node;
    minor_seq = (acc.minor_seq + 1) % 2 ^ 32;
    sent =
        acc.sent ++ record { recipient = recipient; minor = acc.minor_seq; states = cur.bld } ∷ [];
  }

  -- The size of a builder's buffer, in bytes.
  module _ (buffer_size : List FileState → ℕ) (max_msg_sz : ℕ) where
    unfoldable pub no_size_excess : List (Text × MsgNode) → Bool
    no_size_excess [] = true
    no_size_excess (n ∷ ns) =
        if leb max_msg_sz (buffer_size n.1.bld) then false else no_size_excess ns

    unfoldable pub is_due : Bool → MsgNode → Bool
    is_due time_limit_reached cur =
        ltb 0 cur.count && (time_limit_reached || leb max_msg_sz (buffer_size cur.bld))

    -- The loop of `worker_main` at one node, which the iterator points to.
    unfoldable pub flush_node : Bool → Accumulator T → Text → Accumulator T
    flush_node time_limit_reached acc recipient = elim (ops.find acc.recipients recipient) [
      | none ↦ acc
      | some cur ↦ if is_due time_limit_reached cur then send_node acc recipient cur else acc
    ]

    unfoldable pub flush_nodes : Bool → Accumulator T → List (Text × MsgNode) → Accumulator T
    flush_nodes time_limit_reached acc [] = acc
    flush_nodes time_limit_reached acc (n ∷ ns) =
        flush_nodes time_limit_reached (flush_node time_limit_reached acc n.0) ns

    -- The worker behind its wait: the wait ends at a stop, at the time limit, or at a size excess.
    unfoldable pub worker_round : Accumulator T → Bool → Accumulator T
    worker_round acc time_limit_reached =
        if acc.should_stop
        then acc
        else if time_limit_reached || not (no_size_excess (ops.iterate acc.recipients))
        then flush_nodes time_limit_reached acc (ops.iterate acc.recipients)
        else acc

    unfoldable pub total_size : ℕ → List (Text × MsgNode) → ℕ
    total_size result [] = result
    total_size result (n ∷ ns) = total_size ((result + buffer_size n.1.bld) % 2 ^ 64) ns

    unfoldable pub accumulator_size : Accumulator T → ℕ
    accumulator_size acc = total_size 0 (ops.iterate acc.recipients)

  -- The worker's last loop at one node: what was counted is sent, and the builder is cleared.
  unfoldable pub last_node : Accumulator T → Text → Accumulator T
  last_node acc recipient = elim (ops.find acc.recipients recipient) [
    | none ↦ acc
    | some cur ↦
        if ltb 0 cur.count
        then send_node acc recipient cur
        else record acc { recipients = ops.set acc.recipients recipient (record cur { bld = [] }) }
  ]

  unfoldable pub last_nodes : Accumulator T → List (Text × MsgNode) → Accumulator T
  last_nodes acc [] = acc
  last_nodes acc (n ∷ ns) = last_nodes (last_node acc n.0) ns

  -- `destroy_accumulator` to the join of the thread, which sends what is left.
  unfoldable pub stop_accumulator : Accumulator T → Accumulator T
  stop_accumulator acc = last_nodes (record acc { should_stop = true }) (ops.iterate acc.recipients)
