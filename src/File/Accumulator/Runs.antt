-- ===== src/File/Accumulator/Runs.antt =====
-- The accumulator's threads, step after step (agent/plugin/file/accumulator.c).
use yella.Prelude.{
  ℕ, ◌≡◌, refl, sym, ap, subst, ◌∙◌, Bool, false, List, [], ◌∷◌, ◌++◌, none, some, arith,
  if◌then◌else◌, length, ltb, if_both, All, Text, text_eq, text_eq_refl, Bool-cases, Option-cases,
  inl, inr,
}
use yella.Sglib.Tree.{TreeOps, TreeLaws}
use yella.File.Accumulator.{
  FileState, MsgNode, Accumulator, empty_node, send_node, flush_node, flush_nodes, is_due,
  worker_round, last_node, last_nodes,
}
use yella.File.Accumulator.Delivery.{
  delivered, states_of, stored, IsSound, Moves, Moves-trans, Moves-refl, find_mine, find_other,
  found_here, set-tallied, emptied_by, send_node-Moves,
}

nil_of : {A : Type 0} (xs : List A) → length xs ≡ 0 → xs ≡ []
nil_of [] h = refl
nil_of (x ∷ xs) h = absurd (omega arith)

module _ {T : Type 0} (ops : TreeOps T MsgNode) (laws : TreeLaws ops) where
  module _ (buffer_size : List FileState → ℕ) (max_msg_sz : ℕ) (time_limit_reached : Bool) where
    flush_absent :
        (acc : Accumulator T) (recipient : Text)
        → ops.find acc.recipients recipient ≡ none
        → flush_node ops buffer_size max_msg_sz time_limit_reached acc recipient ≡ acc
    unfolding flush_node
    flush_absent acc recipient h = rw (h, flush_node) refl

    flush_found :
        (acc : Accumulator T) (recipient : Text) (cur : MsgNode)
        → ops.find acc.recipients recipient ≡ some cur
        → flush_node ops buffer_size max_msg_sz time_limit_reached acc recipient ≡ (
            if is_due ops buffer_size max_msg_sz time_limit_reached cur
            then send_node ops acc recipient cur
            else acc)
    unfolding flush_node
    flush_found acc recipient cur h = rw (h, flush_node) refl

    flush_node-Moves :
        (acc : Accumulator T) (k : ℕ) (recipient : Text)
        → IsSound ops laws acc k
        → Moves ops laws acc
            (flush_node ops buffer_size max_msg_sz time_limit_reached acc recipient)
            k
    flush_node-Moves acc k recipient s = elim (Option-cases (ops.find acc.recipients recipient)) [
      | inl h ↦
          subst (λ a. Moves ops laws acc a k) (sym (flush_absent acc recipient h))
            (Moves-refl ops laws acc k s)
      | inr (cur, h) ↦
          subst (λ a. Moves ops laws acc a k) (sym (flush_found acc recipient cur h))
            (if_both (λ a. Moves ops laws acc a k) _ _ _
              (send_node-Moves ops laws acc k recipient cur s h) (Moves-refl ops laws acc k s))
    ]

    flush_nodes-Moves :
        (ns : List (Text × MsgNode)) (acc : Accumulator T) (k : ℕ)
        → IsSound ops laws acc k
        → Moves ops laws acc (flush_nodes ops buffer_size max_msg_sz time_limit_reached acc ns) k
    unfolding flush_nodes
    flush_nodes-Moves [] acc k s = Moves-refl ops laws acc k s
    flush_nodes-Moves (n ∷ ns) acc k s =
        let one = flush_node-Moves acc k n.0 s in
        Moves-trans ops laws acc _ _ k one (flush_nodes-Moves ns _ k one.sound)

    pub worker_round-Moves :
        (acc : Accumulator T) (k : ℕ)
        → IsSound ops laws acc k
        → Moves ops laws acc (worker_round ops buffer_size max_msg_sz acc time_limit_reached) k
    unfolding worker_round
    worker_round-Moves acc k s =
        let all = flush_nodes-Moves (ops.iterate acc.recipients) acc k s in
        let same = Moves-refl ops laws acc k s in
        let P = λ (a : Accumulator T). Moves ops laws acc a k in
        if_both P acc.should_stop _ _ same (if_both P _ _ _ all same)

  last_absent :
      (acc : Accumulator T) (recipient : Text)
      → ops.find acc.recipients recipient ≡ none
      → last_node ops acc recipient ≡ acc
  unfolding last_node
  last_absent acc recipient h = rw (h, last_node) refl

  last_found :
      (acc : Accumulator T) (recipient : Text) (cur : MsgNode)
      → ops.find acc.recipients recipient ≡ some cur
      → last_node ops acc recipient ≡ (
          if ltb 0 cur.count then send_node ops acc recipient cur else record acc {
            recipients = ops.set acc.recipients recipient (record cur { bld = [] });
          })
  unfolding last_node
  last_found acc recipient cur h = rw (h, last_node) refl

  clear-Moves :
      (acc : Accumulator T) (k : ℕ) (recipient : Text) (cur : MsgNode)
      → IsSound ops laws acc k
      → ops.find acc.recipients recipient ≡ some cur
      → ltb 0 cur.count ≡ false
      → Moves ops laws acc
          (record acc { recipients = ops.set acc.recipients recipient (record cur { bld = [] }) })
          k
  clear-Moves acc k recipient cur s h counted =
      let zero_count : cur.count ≡ 0 = ground arith in
      let nothing : cur.bld ≡ [] =
        nil_of cur.bld (sym (s.tallied recipient cur h).0 ∙ zero_count) in
      let cleared : MsgNode = record cur { bld = [] } in
      record {
        sound = record {
          tree = laws.set-IsTree acc.recipients recipient cleared s.tree;
          tallied = set-tallied ops laws acc k recipient cur s h cleared (zero_count, omega arith);
          numbered = s.numbered;
          minor = s.minor;
        };
        same = λ q.
            ap (λ t. delivered q acc.sent ++ t)
              (elim (Bool-cases (text_eq q recipient)) [
                | inl e ↦
                    ap states_of (find_mine ops laws acc k recipient cur s h cleared q e)
                    ∙ sym (ap states_of (found_here ops laws acc k recipient cur s h q e) ∙ nothing)
                | inr e ↦ ap states_of (find_other ops laws acc k recipient cur s h cleared q e)
              ]);
        emptied = λ q e. emptied_by ops laws acc k recipient cur s h cleared q refl e;
      }

  send_node-empties :
      (acc : Accumulator T) (k : ℕ) (recipient : Text) (cur : MsgNode)
      → IsSound ops laws acc k
      → ops.find acc.recipients recipient ≡ some cur
      → stored ops laws (send_node ops acc recipient cur) recipient ≡ []
  unfolding send_node
  send_node-empties acc k recipient cur s h =
      ap states_of
        (find_mine ops laws acc k recipient cur s h empty_node recipient (text_eq_refl recipient))

  last_node-Moves :
      (acc : Accumulator T) (k : ℕ) (recipient : Text)
      → IsSound ops laws acc k
      → Moves ops laws acc (last_node ops acc recipient) k
        × (stored ops laws (last_node ops acc recipient) recipient ≡ [])
  last_node-Moves acc k recipient s = elim (Option-cases (ops.find acc.recipients recipient)) [
    | inl h ↦
        subst (λ a. Moves ops laws acc a k × (stored ops laws a recipient ≡ []))
          (sym (last_absent acc recipient h)) (Moves-refl ops laws acc k s, ap states_of h)
    | inr (cur, h) ↦
        subst (λ a. Moves ops laws acc a k × (stored ops laws a recipient ≡ []))
          (sym (last_found acc recipient cur h))
          (elim (Bool-cases (ltb 0 cur.count)) [
            | inl some_states ↦ rw some_states (
              send_node-Moves ops laws acc k recipient cur s h,
              send_node-empties acc k recipient cur s h,
            )
            | inr counted ↦ rw counted (
              clear-Moves acc k recipient cur s h counted,
              ap states_of (
                  find_mine ops laws acc k recipient cur s h (record cur { bld = [] }) recipient
                    (text_eq_refl recipient)),
            )
          ])
  ]

  pub last_nodes-Moves :
      (ns : List (Text × MsgNode)) (acc : Accumulator T) (k : ℕ)
      → IsSound ops laws acc k
      → Moves ops laws acc (last_nodes ops acc ns) k
        × All (λ (n : Text × MsgNode). stored ops laws (last_nodes ops acc ns) n.0 ≡ []) ns
  unfolding last_nodes
  last_nodes-Moves [] acc k s = (Moves-refl ops laws acc k s, tt)
  last_nodes-Moves (n ∷ ns) acc k s =
      let (one, gone) = last_node-Moves acc k n.0 s in
      let (rest, all) = last_nodes-Moves ns (last_node ops acc n.0) k one.sound in
      (Moves-trans ops laws acc _ _ k one rest, (rest.emptied n.0 gone, all))
