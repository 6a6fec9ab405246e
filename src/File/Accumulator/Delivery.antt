-- ===== src/File/Accumulator/Delivery.antt =====
-- Every state that is added is sent once (agent/plugin/file/accumulator.c).
use yella.Prelude.{
  ℕ, suc, ◌+◌, ◌^◌, ◌%◌, ◌≤◌, ◌≡◌, refl, sym, ap, subst, ◌∙◌, true, false, List, [], ◌∷◌, ◌++◌,
  Option, none, some, arith, if◌then◌else◌, length, Text, text_eq, text_eq_iff, append-nil,
  append_assoc, length-append, Bool-cases, inl, inr,
}
use yella.Sglib.Tree.{TreeOps, TreeLaws}
use yella.File.Accumulator.{FileState, MsgNode, StatesParcel, Accumulator, empty_node, send_node}

-- The states of a recipient's parcels, in order.
abbrev pub delivered : Text → List StatesParcel → List FileState
delivered q [] = []
delivered q (p ∷ ps) = (if text_eq q p.recipient then p.states else []) ++ delivered q ps

abbrev pub states_of : Option MsgNode → List FileState
states_of none = []
states_of (some n) = n.bld

-- The minor sequence numbers count on.
abbrev pub Numbered : ℕ → List StatesParcel → Type 0
Numbered n [] = Unit
Numbered n (p ∷ ps) = (p.minor ≡ n % 2 ^ 32) × Numbered (suc n) ps

delivered-append :
    (q : Text) (ps : List StatesParcel) (p : StatesParcel)
    → delivered q (ps ++ p ∷ [])
      ≡ delivered q ps ++ (if text_eq q p.recipient then p.states else [])
delivered-append q [] p = append-nil _
delivered-append q (x ∷ ps) p =
    let mine = if text_eq q x.recipient then x.states else [] in
    ap (λ t. mine ++ t) (delivered-append q ps p) ∙ sym (append_assoc mine (delivered q ps) _)

Numbered-append :
    (n : ℕ) (ps : List StatesParcel) (p : StatesParcel)
    → Numbered n ps
    → p.minor ≡ (n + length ps) % 2 ^ 32
    → Numbered n (ps ++ p ∷ [])
Numbered-append n [] p h e = (e ∙ omega arith, tt)
Numbered-append n (x ∷ ps) p h e = (h.0, Numbered-append (suc n) ps p h.1 (e ∙ omega arith))

module _ {T : Type 0} (ops : TreeOps T MsgNode) (laws : TreeLaws ops) where
  abbrev pub stored : Accumulator T → Text → List FileState
  stored acc q = states_of (ops.find acc.recipients q)

  -- The counts are those of the states, of which no node has more than `k`.
  pub record IsSound (acc : Accumulator T) (k : ℕ) : Type 0 where
    pub tree : laws.IsTree acc.recipients
    pub tallied :
        (q : Text) (n : MsgNode)
        → ops.find acc.recipients q ≡ some n
        → (n.count ≡ length n.bld) × (length n.bld ≤ k)
    pub numbered : Numbered 0 acc.sent
    pub minor : acc.minor_seq ≡ length acc.sent % 2 ^ 32

  abbrev pub total : Accumulator T → Text → List FileState
  total acc q = delivered q acc.sent ++ stored acc q

  -- Nothing is lost and nothing is doubled, and no recipient's states come back.
  pub record Moves (acc acc' : Accumulator T) (k : ℕ) : Type 0 where
    pub sound : IsSound acc' k
    pub same : (q : Text) → total acc' q ≡ total acc q
    pub emptied : (q : Text) → stored acc q ≡ [] → stored acc' q ≡ []

  pub Moves-trans : (a b c : Accumulator T) (k : ℕ) → Moves a b k → Moves b c k → Moves a c k
  Moves-trans a b c k f g = record {
    sound = g.sound;
    same = λ q. g.same q ∙ f.same q;
    emptied = λ q e. g.emptied q (f.emptied q e);
  }

  pub Moves-refl : (acc : Accumulator T) (k : ℕ) → IsSound acc k → Moves acc acc k
  Moves-refl acc k s = record { sound = s; same = λ q. refl; emptied = λ q e. e }

  module _ (acc : Accumulator T) (k : ℕ) (recipient : Text) (cur : MsgNode) (s : IsSound acc k)
      (there : ops.find acc.recipients recipient ≡ some cur) where
    pub find_mine :
        (v : MsgNode) (q : Text)
        → text_eq q recipient ≡ true
        → ops.find (ops.set acc.recipients recipient v) q ≡ some v
    find_mine v q h = laws.find-set acc.recipients recipient v cur q s.tree there ∙ rw h refl

    pub find_other :
        (v : MsgNode) (q : Text)
        → text_eq q recipient ≡ false
        → ops.find (ops.set acc.recipients recipient v) q ≡ ops.find acc.recipients q
    find_other v q h = laws.find-set acc.recipients recipient v cur q s.tree there ∙ rw h refl

    pub found_here : (q : Text) → text_eq q recipient ≡ true → ops.find acc.recipients q ≡ some cur
    found_here q h = rw ((text_eq_iff q recipient).0 h) there

    pub set-tallied :
        (v : MsgNode)
        → (v.count ≡ length v.bld) × (length v.bld ≤ k)
        → (q : Text) (n : MsgNode) → ops.find (ops.set acc.recipients recipient v) q ≡ some n
        → (n.count ≡ length n.bld) × (length n.bld ≤ k)
    set-tallied v fits q n h = elim (Bool-cases (text_eq q recipient)) [
      | inl e ↦
          (let mine = find_mine v q e in
            let same : v ≡ n = cc in
            subst (λ t. (t.count ≡ length t.bld) × (length t.bld ≤ k)) same fits)
      | inr e ↦ s.tallied q n (sym (find_other v q e) ∙ h)
    ]

    pub emptied_by :
        (v : MsgNode) (q : Text)
        → v.bld ≡ []
        → stored acc q ≡ []
        → states_of (ops.find (ops.set acc.recipients recipient v) q) ≡ []
    emptied_by v q none_left e = elim (Bool-cases (text_eq q recipient)) [
      | inl h ↦ ap states_of (find_mine v q h) ∙ none_left
      | inr h ↦ ap states_of (find_other v q h) ∙ e
    ]

    pub send_node-Moves : Moves acc (send_node ops acc recipient cur) k
    unfolding send_node
    send_node-Moves =
        let p : StatesParcel = record {
          recipient = recipient;
          minor = acc.minor_seq;
          states = cur.bld;
        } in
        record {
          sound = record {
            tree = laws.set-IsTree acc.recipients recipient empty_node s.tree;
            tallied = set-tallied empty_node (refl, omega arith);
            numbered = Numbered-append 0 acc.sent p s.numbered (s.minor ∙ omega arith);
            minor = omega (arith, s.minor, length-append acc.sent (p ∷ []));
          };
          same = λ q. elim (Bool-cases (text_eq q recipient)) [
            | inl h ↦
                rw (delivered-append q acc.sent p, h, find_mine empty_node q h, found_here q h)
                  (append-nil _)
            | inr h ↦
                rw (delivered-append q acc.sent p, h, find_other empty_node q h)
                  (ap (λ t. t ++ stored acc q) (append-nil _))
          ];
          emptied = λ q e. emptied_by empty_node q refl e;
        }
