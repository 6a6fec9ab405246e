-- ===== src/File/Accumulator/Sent.antt =====
-- The end of the accumulator (agent/plugin/file/accumulator.c).
use yella.Prelude.{
  ℕ, ◌^◌, ◌<◌, ◌≡◌, sym, ap, ◌∙◌, true, false, none, some, List, [], ◌++◌, arith, length, Text,
  append-nil, Option-cases, inl, inr,
}
use yella.External.{Utf8}
use yella.Sglib.Tree.{TreeOps, TreeLaws}
use yella.File.Accumulator.{
  FileState, MsgNode, Accumulator, create_accumulator, last_nodes, stop_accumulator,
}
use yella.File.Accumulator.Delivery.{delivered, states_of, Numbered, stored, IsSound, total}
use yella.File.Accumulator.Runs.{last_nodes-Moves}
use yella.File.Accumulator.Acts.{Act, added_for, are_told_acts, run, told_run, run-told}
use yella.File.Accumulator.Once.{run-total}

module _ {T : Type 0} (ops : TreeOps T MsgNode) (laws : TreeLaws ops) where
  create-IsSound : IsSound ops laws (create_accumulator ops) 0
  unfolding create_accumulator
  create-IsSound = record {
    tree = laws.empty-IsTree;
    tallied = λ q n h. absurd (let none_yet = laws.find-empty q in cc);
    numbered = tt;
    minor = omega arith;
  }

  create-total : (q : Text) → total ops laws (create_accumulator ops) q ≡ []
  unfolding create_accumulator
  create-total q = ap states_of (laws.find-empty q)

  stop-Moves :
      (acc : Accumulator T) (k : ℕ)
      → IsSound ops laws acc k
      → IsSound ops laws (stop_accumulator ops acc) k
        × ((q : Text) → delivered q (stop_accumulator ops acc).sent ≡ total ops laws acc q)
  unfolding stop_accumulator
  stop-Moves acc k s =
      let stopping : Accumulator T = record acc { should_stop = true } in
      let still : IsSound ops laws stopping k = record {
        tree = s.tree;
        tallied = s.tallied;
        numbered = s.numbered;
        minor = s.minor;
      } in
      let nodes = ops.iterate acc.recipients in
      let (moves, gone) = last_nodes-Moves ops laws nodes stopping k still in
      let end = last_nodes ops stopping nodes in
      (
        moves.sound,
        λ q.
            let left : stored ops laws end q ≡ [] =
              elim (Option-cases (ops.find acc.recipients q)) [
                | inl h ↦ moves.emptied q (ap states_of h)
                | inr (v, h) ↦
                    laws.find-iterate acc.recipients q v (λ n. stored ops laws end n.0 ≡ []) s.tree
                      h gone
              ] in
            sym (append-nil (delivered q end.sent))
            ∙ ap (λ t. delivered q end.sent ++ t) (sym left)
            ∙ moves.same q,
      )

  -- Every state that is added is sent, once and in order. However additions and rounds of the worker,
  -- at its time limit or before, follow one another from a new accumulator to its end, fewer than
  -- 2^64 of them, and whatever the sizes: if `yella_to_utf8` converts all texts of the messages, the
  -- states in the parcels of a recipient are, parcel after parcel, those that were added for it, in
  -- their order, and the parcels' minor sequence numbers count from zero, in 32 bits. If a text of a
  -- message is not converted, its addition runs into the NULL text.
  pub stop_accumulator_lem :
      (utf : Utf8) (buffer_size : List FileState → ℕ) (max_msg_sz : ℕ) (acts : List Act)
      → length acts < 2 ^ 64
      → let ran = run ops buffer_size max_msg_sz utf (create_accumulator ops) acts in
        (are_told_acts utf acts ≡ true
          → (acc : Accumulator T) × (ran ≡ some acc)
            × Numbered 0 (stop_accumulator ops acc).sent
            × ((q : Text) → delivered q (stop_accumulator ops acc).sent ≡ added_for q acts))
        × (are_told_acts utf acts ≡ false → ran ≡ none)
  stop_accumulator_lem utf buffer_size max_msg_sz acts small =
      let new = create_accumulator ops in
      let (going, ending) = run-told ops buffer_size max_msg_sz utf acts new in
      let (sound, all) =
        run-total ops laws buffer_size max_msg_sz acts new 0 create-IsSound (omega arith) in
      let (end, same) = stop-Moves _ _ sound in
      (
        λ h. (
          told_run ops buffer_size max_msg_sz new acts,
          going h,
          end.numbered,
          λ q. same q ∙ all q ∙ ap (λ t. t ++ added_for q acts) (create-total q),
        ),
        ending,
      )
