-- ===== src/Reducer/Passed.antt =====
-- Nodes that pass and nodes in a final state, in a published run: StateReducer.apply of
-- src/graphori_core/reducer.py.
use graphori.Common.{
  String, List, true, some, ◌==◌, ◌≡◌, sym, ap, subst, ◌∙◌, ◌⊎◌, inl, inr, Bool-cases, Option-cases,
  eq_iff,
}
use graphori.Common.Result.{ok}
use graphori.Event.Value.{Fields}
use graphori.Lifecycle.Node.{NodeState, passed, node_value, node_transitions}
use graphori.Lifecycle.Member.{is_in}
use graphori.Lifecycle.Moves.{is_final, no_way}
use graphori.Reducer.State.{RunNode, Run, run_ended, State, find_node, with_state}
use graphori.Reducer.Steps.{actor_role}
use graphori.Reducer.Work.{may_pass}
use graphori.Reducer.Apply.{apply}
use graphori.Reducer.Contract.{may_set, Evolves, unchanged, then_move, then_grow}
use graphori.Reducer.Nodes.{find_node-with_state, find_node-absent, find_node-grown, find_node-more}
use graphori.Reducer.Moved.{IsPublished}
use graphori.Reducer.Laws.{advanced, ended, apply-Changes}

-- The node has the state.
abbrev pub IsAt : List RunNode → String → NodeState → Type 0
IsAt ns i s = (n : RunNode) × (find_node ns i ≡ some n) × (n.state ≡ s)

-- A node with a state after one node was moved: it is the node that moved, or it had the state.
with_state-IsAt :
    (ns : List RunNode) (i j : String) (target s : NodeState)
    → IsAt (with_state j target ns) i s
    → (s ≡ target) ⊎ IsAt ns i s
with_state-IsAt ns i j target s (m, there, is_s) = elim (Option-cases (find_node ns i)) [
  | inl absent ↦ cc (find_node-absent ns j i target absent, there)
  | inr (k, here) ↦
      let after = find_node-with_state ns j i target k here in
      elim (Bool-cases (j == i)) [
        | inr other ↦
            let same : k ≡ m = cc (rw other at after, there) in
            inr (k, here, ap (λ (z : RunNode). z.state) same ∙ is_s)
        | inl changed ↦
            let made : record k { state = target } ≡ m = cc (rw changed at after, there) in
            inl (sym is_s ∙ sym (ap (λ (z : RunNode). z.state) made))
      ]
]

Evolves-passed :
    (role : String) (ns ms : List RunNode) (i : String)
    → Evolves role ns ms
    → IsAt ms i passed
    → (IsAt ns i passed) ⊎ (may_pass role ≡ true)
Evolves-passed role ns _ i unchanged now = inl now
Evolves-passed role ns ms i (then_grow {ms = ks} n before fresh waits) (m, found, is_passed) =
    elim (find_node-grown ks n i m found) [
      | inl old ↦ Evolves-passed role ns ks i before (m, old, is_passed)
      | inr new ↦ cc (waits, ap (λ (z : RunNode). z.state) new, is_passed)
    ]
Evolves-passed role ns ms i (then_move {ms = ks} j n target before found allowed may) now =
    elim (with_state-IsAt ks i j target passed now) [
      | inl reached ↦ inr (subst (λ z. may_set role z ≡ true) (sym reached) may)
      | inr earlier ↦ Evolves-passed role ns ks i before earlier
    ]

-- A node in a final state, after a step of another or of itself.
with_state-is_final :
    (ns : List RunNode) (i j : String) (n : RunNode) (target s : NodeState)
    → find_node ns j ≡ some n
    → (n.state ≡ target) ⊎ (is_in node_value (node_transitions n.state) target ≡ true)
    → is_final s ≡ true
    → IsAt ns i s
    → IsAt (with_state j target ns) i s
with_state-is_final ns i j n target s found allowed final (k, here, is_s) =
    let after = find_node-with_state ns j i target k here in
    elim (Bool-cases (j == i)) [
      | inr other ↦ (k, rw other at after, is_s)
      | inl changed ↦
          let same : k ≡ n = cc (here, found, (eq_iff j i).0 changed) in
          let held : n.state ≡ s = ap (λ (z : RunNode). z.state) (sym same) ∙ is_s in
          elim allowed [
            | inl kept ↦ (record k { state = target }, rw changed at after, sym kept ∙ held)
            | inr listed ↦ absurd (
                no_way (node_transitions s) target final
                  (subst (λ z. is_in node_value (node_transitions z) target ≡ true) held listed))
          ]
    ]

Evolves-is_final :
    (role : String) (ns ms : List RunNode) (i : String) (s : NodeState)
    → Evolves role ns ms
    → is_final s ≡ true
    → IsAt ns i s
    → IsAt ms i s
Evolves-is_final role ns _ i s unchanged final now = now
Evolves-is_final role ns ms i s (then_grow {ms = ks} n before fresh waits) final now =
    let (m, found, is_s) = Evolves-is_final role ns ks i s before final now in
    (m, find_node-more ks n i m found, is_s)
Evolves-is_final role ns ms i s (then_move {ms = ks} j n target before found allowed may) final
      now =
    with_state-is_final ks i j n target s found allowed final
      (Evolves-is_final role ns ks i s before final now)

-- Only those who judge make a node pass: where a node of a published run passes with an event, whatever
-- its type, the event's actor is a verifier or a human gate.
pub apply-passed :
    (s : State) (run now : Run) (e : Fields) (t : State) (i : String)
    → IsPublished s run
    → apply s e ≡ ok t
    → t.run ≡ some now
    → (IsAt run.nodes i passed → ⊥)
    → IsAt now.nodes i passed
    → may_pass (actor_role e) ≡ true
apply-passed s run now e t i p returned is_run not_yet passes =
    elim (apply-Changes s run e t p returned) [
      | advanced a ↦
          let same : now ≡ a.after = cc (is_run, a.is_run) in
          elim (Evolves-passed (actor_role e) run.nodes a.after.nodes i a.advances.nodes
            (subst (λ (z : Run). IsAt z.nodes i passed) same passes)) [
              | inl before ↦ absurd (not_yet before)
              | inr judges ↦ judges
            ]
      | ended x ↦
          let end : Run = record run {
            terminal_status = some x.status;
            state = run_ended x.status;
          } in
          let same : now ≡ end = cc (is_run, ap (λ (z : State). z.run) x.result) in
          absurd (not_yet (subst (λ (z : Run). IsAt z.nodes i passed) same passes))
    ]

-- No event revives a node: one whose state the table of transitions gives no way on keeps that state
-- through whatever event a published run accepts.
pub apply-is_final :
    (s : State) (run now : Run) (e : Fields) (t : State) (i : String) (outcome : NodeState)
    → IsPublished s run
    → apply s e ≡ ok t
    → t.run ≡ some now
    → IsAt run.nodes i outcome
    → is_final outcome ≡ true
    → IsAt now.nodes i outcome
apply-is_final s run now e t i outcome p returned is_run here final =
    elim (apply-Changes s run e t p returned) [
      | advanced a ↦
          let same : a.after ≡ now = cc (is_run, a.is_run) in
          subst (λ (z : Run). IsAt z.nodes i outcome) same
            (Evolves-is_final (actor_role e) run.nodes a.after.nodes i outcome a.advances.nodes
              final here)
      | ended x ↦
          let end : Run = record run {
            terminal_status = some x.status;
            state = run_ended x.status;
          } in
          let same : end ≡ now = cc (is_run, ap (λ (z : State). z.run) x.result) in
          subst (λ (z : Run). IsAt z.nodes i outcome) same here
    ]
