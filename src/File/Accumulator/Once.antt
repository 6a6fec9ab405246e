-- ===== src/File/Accumulator/Once.antt =====
-- Additions, the worker's rounds and the end of the accumulator (agent/plugin/file/accumulator.c).
use yella.Prelude.{
  ℕ, suc, ◌+◌, ◌^◌, ◌≤◌, ◌<◌, ◌≡◌, refl, sym, ap, subst, ◌∙◌, true, false, List, [], ◌∷◌, ◌++◌,
  none, some, arith, length, Text, text_eq, text_eq_iff, text_eq_refl, append-nil, append_assoc,
  length-append, Bool-cases, Option-cases, inl, inr,
}
use yella.Sglib.Tree.{TreeOps, TreeLaws}
use yella.File.Accumulator.{FileState, MsgNode, Accumulator, empty_node, pushed, push_state}
use yella.File.Accumulator.Delivery.{
  delivered, states_of, stored, IsSound, total, find_mine, find_other, found_here, set-tallied,
}
use yella.File.Accumulator.Runs.{worker_round-Moves}
use yella.File.Accumulator.Acts.{
  Act, add, wake, state_of, for_recipient, added_for, told_act, told_run,
}

module _ {T : Type 0} (ops : TreeOps T MsgNode) (laws : TreeLaws ops) where
  weaken : (acc : Accumulator T) (k : ℕ) → IsSound ops laws acc k → IsSound ops laws acc (suc k)
  weaken acc k s = record {
    tree = s.tree;
    tallied = λ q n h. ((s.tallied q n h).0, omega (arith, (s.tallied q n h).1));
    numbered = s.numbered;
    minor = s.minor;
  }

  -- An accumulator with another tree of recipients.
  abbrev with_tree : Accumulator T → T → Accumulator T
  with_tree acc t = record acc { recipients = t }

  -- A state was pushed.
  abbrev Gains : Accumulator T → Accumulator T → ℕ → Text → FileState → Type 0
  Gains acc acc' k recipient st =
      IsSound ops laws acc' (suc k)
      × ((q : Text) → total ops laws acc' q ≡ total ops laws acc q ++ for_recipient q recipient st)

  pushed-Gains :
      (acc : Accumulator T) (k : ℕ) (recipient : Text) (cur : MsgNode) (st : FileState)
      → IsSound ops laws acc k
      → suc k < 2 ^ 64
      → ops.find acc.recipients recipient ≡ some cur
      → Gains acc
          (with_tree acc (ops.set acc.recipients recipient (pushed ops cur st)))
          k
          recipient
          st
  pushed-Gains acc k recipient cur st s small h =
      let s' = weaken acc k s in
      let (tally, most) = s.tallied recipient cur h in
      let longer = length-append cur.bld (st ∷ []) in
      (
        record {
          tree = laws.set-IsTree acc.recipients recipient (pushed ops cur st) s.tree;
          tallied =
              set-tallied ops laws acc (suc k) recipient cur s' h (pushed ops cur st)
                (omega (arith, tally, most, longer), omega (arith, most, longer));
          numbered = s.numbered;
          minor = s.minor;
        },
        λ q. elim (Bool-cases (text_eq q recipient)) [
          | inl e ↦
              rw
                (
                  e,
                  find_mine ops laws acc k recipient cur s h (pushed ops cur st) q e,
                  found_here ops laws acc k recipient cur s h q e,
                )
                (sym (append_assoc (delivered q acc.sent) cur.bld (st ∷ [])))
          | inr e ↦
              rw (e, find_other ops laws acc k recipient cur s h (pushed ops cur st) q e)
                (sym (append-nil _))
        ],
      )

  -- The node of a new recipient.
  module _ (acc : Accumulator T) (k : ℕ) (recipient : Text) (s : IsSound ops laws acc k)
      (absent : ops.find acc.recipients recipient ≡ none) where
    abbrev with_node : Accumulator T
    with_node = with_tree acc (ops.add acc.recipients recipient empty_node)

    find_new :
        (p : Text) → text_eq p recipient ≡ true → ops.find with_node.recipients p ≡ some empty_node
    find_new p e = laws.find-add acc.recipients recipient empty_node p s.tree absent ∙ rw e refl

    find_old :
        (p : Text)
        → text_eq p recipient ≡ false
        → ops.find with_node.recipients p ≡ ops.find acc.recipients p
    find_old p e = laws.find-add acc.recipients recipient empty_node p s.tree absent ∙ rw e refl

    with_node-IsSound : IsSound ops laws with_node k
    with_node-IsSound = record {
      tree = laws.add-IsTree acc.recipients recipient empty_node s.tree absent;
      tallied = λ p n h. elim (Bool-cases (text_eq p recipient)) [
        | inl e ↦
            (let new = find_new p e in
              let same : empty_node ≡ n = cc in
              let none_yet : (0 ≡ 0) × (0 ≤ k) = (refl, omega arith) in
              subst (λ (t : MsgNode). (t.count ≡ length t.bld) × (length t.bld ≤ k)) same none_yet)
        | inr e ↦ s.tallied p n (sym (find_old p e) ∙ h)
      ];
      numbered = s.numbered;
      minor = s.minor;
    }

    stored-with_node : (q : Text) → stored ops laws with_node q ≡ stored ops laws acc q
    stored-with_node q = elim (Bool-cases (text_eq q recipient)) [
      | inl e ↦
          ap states_of (find_new q e)
          ∙ sym
              (ap states_of (ap (ops.find acc.recipients) ((text_eq_iff q recipient).0 e) ∙ absent))
      | inr e ↦ ap states_of (find_old q e)
    ]

  push_found :
      (t : T) (recipient : Text) (cur : MsgNode) (st : FileState)
      → ops.find t recipient ≡ some cur
      → push_state ops t recipient st ≡ ops.set t recipient (pushed ops cur st)
  unfolding push_state
  push_found t recipient cur st h = rw (h, push_state) refl

  push_absent :
      (t : T) (recipient : Text) (st : FileState)
      → ops.find t recipient ≡ none
      → push_state ops t recipient st
        ≡ ops.set (ops.add t recipient empty_node) recipient (pushed ops empty_node st)
  unfolding push_state
  push_absent t recipient st h = rw (h, push_state) refl

  push_state-Gains :
      (acc : Accumulator T) (k : ℕ) (recipient : Text) (st : FileState)
      → IsSound ops laws acc k
      → suc k < 2 ^ 64
      → Gains acc (with_tree acc (push_state ops acc.recipients recipient st)) k recipient st
  push_state-Gains acc k recipient st s small =
      elim (Option-cases (ops.find acc.recipients recipient)) [
        | inr (cur, h) ↦
            subst (λ t. Gains acc (with_tree acc t) k recipient st)
              (sym (push_found acc.recipients recipient cur st h))
              (pushed-Gains acc k recipient cur st s small h)
        | inl h ↦
            (let new = with_node-IsSound acc k recipient s h in
              let (sound, same) =
                pushed-Gains (with_node acc k recipient s h) k recipient empty_node st new small
                  (find_new acc k recipient s h recipient (text_eq_refl recipient)) in
              subst (λ t. Gains acc (with_tree acc t) k recipient st)
                (sym (push_absent acc.recipients recipient st h))
                (
                  sound,
                  λ q.
                      same q
                      ∙ ap (λ t. (delivered q acc.sent ++ t) ++ for_recipient q recipient st)
                          (stored-with_node acc k recipient s h q),
                ))
      ]

  module _ (buffer_size : List FileState → ℕ) (max_msg_sz : ℕ) where
    pub run-total :
        (acts : List Act) (acc : Accumulator T) (k : ℕ)
        → IsSound ops laws acc k
        → k + length acts < 2 ^ 64
        → IsSound ops laws (told_run ops buffer_size max_msg_sz acc acts) (k + length acts)
          × ((q : Text)
              → total ops laws (told_run ops buffer_size max_msg_sz acc acts) q
                ≡ total ops laws acc q ++ added_for q acts)
    unfolding told_run told_act
    run-total [] acc k s small =
        (subst (IsSound ops laws acc) (omega arith) s, λ q. sym (append-nil _))
    run-total (add recipient config_name elem_name elem cond now ∷ acts) acc k s small =
        let st = state_of config_name elem_name elem cond now in
        let (sound, gain) = push_state-Gains acc k recipient st s (omega arith) in
        let (end, rest) = run-total acts _ (suc k) sound (omega arith) in
        (
          subst (IsSound ops laws _) (omega arith) end,
          λ q.
              rest q
              ∙ ap (λ t. t ++ added_for q acts) (gain q)
              ∙ append_assoc (total ops laws acc q) (for_recipient q recipient st)
                  (added_for q acts),
        )
    run-total (wake limit ∷ acts) acc k s small =
        let moves = worker_round-Moves ops laws buffer_size max_msg_sz limit acc k s in
        let (end, rest) = run-total acts _ (suc k) (weaken _ k moves.sound) (omega arith) in
        (
          subst (IsSound ops laws _) (omega arith) end,
          λ q. rest q ∙ ap (λ t. t ++ added_for q acts) (moves.same q),
        )
