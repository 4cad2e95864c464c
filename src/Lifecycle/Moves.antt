-- ===== src/Lifecycle/Moves.antt =====
-- Node transitions one after another: what one transition does, that an outcome is final, and what
-- a node awaits before it passes. About transition_node of src/graphori_core/compiler.py.
use graphori.Common.{
  String, List, [], ◌∷◌, Bool, true, false, some, is_blank, is_empty, if◌then◌else◌, ◌==◌, ◌≡◌, ◌≢◌,
  refl, sym, ap, subst, ◌∙◌, ◌⊎◌, inl, inr, Bool-cases, Option-cases, eq_iff,
}
use graphori.Common.Dict.{Dict, insert, get_or-insert}
use graphori.Common.Result.{ok}
use graphori.Lifecycle.Member.{member_of, is_in}
use graphori.Lifecycle.Node.{
  NodeState, pending, ready, assigned, running, awaiting_verification, queued, stale,
  outcome_unknown, passed, failed, cancelled, blocked, rejected, inconclusive, node_value,
  node_states, node_transitions, current, move, transition_node,
}

-- Every value names its own state.
pub node-member_of : (s : NodeState) → member_of node_value node_states (node_value s) ≡ some s
unfolding member_of
node-member_of pending = refl
node-member_of ready = refl
node-member_of assigned = refl
node-member_of running = refl
node-member_of awaiting_verification = refl
node-member_of queued = refl
node-member_of stale = refl
node-member_of outcome_unknown = refl
node-member_of passed = refl
node-member_of failed = refl
node-member_of cancelled = refl
node-member_of blocked = refl
node-member_of rejected = refl
node-member_of inconclusive = refl

pub node_value_inj : (s t : NodeState) → node_value s ≡ node_value t → s ≡ t
node_value_inj s t e = cc (node-member_of s, node-member_of t, e)

-- What a transition that returned did: the state is kept, or the table has the transition; and no
-- other node changed.
pub record IsMove (before : Dict NodeState) (i : String) (target : NodeState)
    (after : Dict NodeState) : Type 0 where
  pub named : is_blank i ≡ false
  pub allowed :
      (target ≡ current before i)
      ⊎ (is_in node_value (node_transitions (current before i)) target ≡ true)
  pub result : (j : String) → current after j ≡ (if i == j then target else current before j)

keep_self :
    (d : Dict NodeState) (i j : String)
    → current d j ≡ (if i == j then current d i else current d j)
keep_self d i j = elim (Bool-cases (i == j)) [
  | inl same ↦ rw (same) (ap (current d) (sym ((eq_iff i j).0 same)))
  | inr other ↦ rw other refl
]

move-IsMove :
    (d : Dict NodeState) (i : String) (target t : NodeState) (d' : Dict NodeState)
    → is_blank i ≡ false
    → move d i target ≡ ok (t, d')
    → (target ≡ t) × IsMove d i t d'
unfolding move
move-IsMove d i target t d' named e =
    elim (Bool-cases (node_value target == node_value (current d i))) [
      | inl same ↦
          let q : ok (current d i, d) ≡ ok (t, d') = rw same at e in
          let kept : current d i ≡ t = cc q in
          let store : d ≡ d' = cc q in
          (
            node_value_inj target (current d i) ((eq_iff _ _).0 same) ∙ kept,
            subst (λ z. IsMove d i t z) store
                (record {
                  named = named;
                  allowed = inl (sym kept);
                  result = λ j.
                      subst (λ z. current d j ≡ (if i == j then z else current d j)) kept
                        (keep_self d i j);
                }),
          )
      | inr other ↦ elim (Bool-cases (is_in node_value (node_transitions (current d i)) target)) [
        | inl listed ↦
            let q : ok (target, insert i target d) ≡ ok (t, d') = rw (other, listed) at e in
            let same : target ≡ t = cc q in
            let store : insert i target d ≡ d' = cc q in
            (
              same,
              subst (λ z. IsMove d i t z) store
                  (subst (λ z. IsMove d i z (insert i target d)) same
                    (record {
                      named = named;
                      allowed = inr listed;
                      result = λ j. get_or-insert i j target pending d;
                    })),
            )
        | inr missing ↦ cc (rw (other, missing) at e)
      ]
    ]

-- A transition that returns went to the state that its text is the value of; it kept the node's state
-- or followed the table, and changed no other node.
pub transition_node-IsMove :
    (d : Dict NodeState) (i text : String) (t : NodeState) (d' : Dict NodeState)
    → transition_node d i text ≡ ok (t, d')
    → (member_of node_value node_states text ≡ some t) × IsMove d i t d'
unfolding transition_node
transition_node-IsMove d i text t d' e = elim (Bool-cases (is_blank i)) [
  | inl blank ↦ cc (rw blank at e)
  | inr named ↦ elim (Option-cases (member_of node_value node_states text)) [
    | inl unknown ↦ cc (rw (named, unknown) at e)
    | inr (s, known) ↦
        let (same, moved) = move-IsMove d i s t d' named (rw (named, known) at e) in
        (known ∙ ap (λ z. some z) same, moved)
  ]
]

pub passed-after :
    (s : NodeState)
    → is_in node_value (node_transitions s) passed ≡ true
    → s ≡ awaiting_verification
passed-after pending h = cc h
passed-after ready h = cc h
passed-after assigned h = cc h
passed-after running h = cc h
passed-after awaiting_verification h = refl
passed-after queued h = cc h
passed-after stale h = cc h
passed-after outcome_unknown h = cc h
passed-after passed h = cc h
passed-after failed h = cc h
passed-after cancelled h = cc h
passed-after blocked h = cc h
passed-after rejected h = cc h
passed-after inconclusive h = cc h

-- Any number of transitions that returned, of any nodes.
pub data Moves (d : Dict NodeState) : Dict NodeState → Type 0 where
  none_yet : Moves d d
  then_move :
      {e f : Dict NodeState} (i text : String) (t : NodeState)
      → Moves d e
      → transition_node e i text ≡ ok (t, f)
      → Moves d f

abbrev pub is_final : NodeState → Bool
is_final s = is_empty (node_transitions s)

pub no_way :
    (ways : List NodeState) (t : NodeState)
    → is_empty ways ≡ true
    → is_in node_value ways t ≡ true
    → ⊥
no_way [] t h m = cc m
no_way (x ∷ xs) t h m = cc h

IsMove-is_final :
    (d d' : Dict NodeState) (i j : String) (t : NodeState)
    → IsMove d i t d'
    → is_final (current d j) ≡ true
    → current d' j ≡ current d j
IsMove-is_final d d' i j t m h = elim (Bool-cases (i == j)) [
  | inr other ↦ rw other at (m.result j)
  | inl same ↦
      let i≡j = (eq_iff i j).0 same in
      let moved : current d' j ≡ t = rw same at (m.result j) in
      elim m.allowed [
        | inl kept ↦ moved ∙ kept ∙ ap (current d) i≡j
        | inr listed ↦ absurd (
            no_way (node_transitions (current d j)) t h
              (subst (λ z. is_in node_value (node_transitions (current d z)) t ≡ true) i≡j listed))
      ]
]

-- An outcome is final: once the table gives a node's state no way on, it keeps that state through
-- any later transitions, of it and of others.
pub Moves-is_final :
    (d d' : Dict NodeState) (j : String)
    → Moves d d'
    → is_final (current d j) ≡ true
    → current d' j ≡ current d j
Moves-is_final d _ j none_yet h = refl
Moves-is_final d d' j (then_move {e} i text t before last) h =
    let kept = Moves-is_final d e j before h in
    IsMove-is_final e d' i j t (transition_node-IsMove e i text t d' last).1
      (subst (λ z. is_final z ≡ true) (sym kept) h)
    ∙ kept

-- Whether a state is `passed`.
abbrev is_passed : NodeState → Bool
is_passed s = node_value s == "passed"

is_passed_only : (s : NodeState) → is_passed s ≡ true → s ≡ passed
is_passed_only s h = node_value_inj s passed ((eq_iff (node_value s) "passed").0 h)

-- A transition that makes a node pass found it awaiting verification.
IsMove-passed :
    (d d' : Dict NodeState) (i j : String) (t : NodeState)
    → IsMove d i t d'
    → current d' j ≡ passed
    → (current d j ≡ passed) ⊎ (current d j ≡ awaiting_verification)
IsMove-passed d d' i j t m h = elim (Bool-cases (i == j)) [
  | inr other ↦ inl (sym (rw other at (m.result j)) ∙ h)
  | inl same ↦
      let i≡j = (eq_iff i j).0 same in
      let t≡passed : t ≡ passed = sym (rw same at (m.result j)) ∙ h in
      elim m.allowed [
        | inl kept ↦ inl (sym (ap (current d) i≡j) ∙ sym kept ∙ t≡passed)
        | inr listed ↦ inr (
            sym (ap (current d) i≡j)
            ∙ passed-after (current d i) (
                subst (λ z. is_in node_value (node_transitions (current d i)) z ≡ true) t≡passed
                  listed))
      ]
]

-- Some of the transitions, as they were made, found the node awaiting verification and left it passed.
abbrev pub HasVerified : {d d' : Dict NodeState} → String → Moves d d' → Type 0
HasVerified j none_yet = ⊥
HasVerified j (then_move {e} {f} i text t before last) =
    HasVerified j before ⊎ ((current e j ≡ awaiting_verification) × (current f j ≡ passed))

-- Nothing passes unverified: where a node has passed after some transitions and had not before them,
-- one of these transitions found it awaiting verification and left it passed.
pub Moves-passed :
    (d d' : Dict NodeState) (j : String)
    → (made : Moves d d') → current d j ≢ passed
    → current d' j ≡ passed
    → HasVerified j made
Moves-passed d _ j none_yet not_yet now = absurd (not_yet now)
Moves-passed d d' j (then_move {e} i text t before last) not_yet now =
    elim (IsMove-passed e d' i j t (transition_node-IsMove e i text t d' last).1 now) [
      | inl earlier ↦ inl (Moves-passed d e j before not_yet earlier)
      | inr awaiting ↦ inr (awaiting, now)
    ]
