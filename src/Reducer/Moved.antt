-- ===== src/Reducer/Moved.antt =====
-- What the change of one node's state promises: _set_node_state of src/graphori_core/reducer.py and
-- the move of node_status_changed.
use graphori.Common.{
  String, true, is_blank, Option, none, some, ◌==◌, ◌≡◌, refl, sym, ap, subst, ◌∙◌, ◌⊎◌, inl, inr,
  Bool-cases, both, ◌&&◌, eq_refl, eq_iff,
}
use graphori.Common.Dict.{Dict, insert, get_or-insert}
use graphori.Common.Result.{Result, ok, err, >>=-eq-ok, guard-eq-ok}
use graphori.Common.Ensures.{Ensures, Ensures-ok, Ensures-bind}
use graphori.Event.{present}
use graphori.Lifecycle.Member.{TransitionError, is_in}
use graphori.Lifecycle.Node.{
  NodeState, pending, node_value, node_transitions, current, move, transition_node,
}
use graphori.Lifecycle.Moves.{node-member_of, node_value_inj}
use graphori.Reducer.State.{RunNode, Run, State, find_node, with_state}
use graphori.Reducer.Snapshot.{state_rows}
use graphori.Reducer.Steps.{moved, require_published_run, move_node, set_node_state}
use graphori.Reducer.Leads.{HasMore-refl}
use graphori.Reducer.Contract.{
  may_set, unchanged, then_move, core, Core, IsSynced, Advances, Advanced, Leads,
}
use graphori.Reducer.Nodes.{
  find_node-node_id, statuses_of-with_state, insert-insert, topology-with_state, ids-with_state,
}

-- What a transition to a named state did: the state was there, or the table has the transition.
record HasSet (statuses : Dict NodeState) (i : String) (target : NodeState) (after : Dict NodeState)
    : Type 0 where
  allowed :
      (current statuses i ≡ target)
      ⊎ (is_in node_value (node_transitions (current statuses i)) target ≡ true)
  stored : ((after ≡ statuses) × (current statuses i ≡ target)) ⊎ (after ≡ insert i target statuses)

move-HasSet :
    (d : Dict NodeState) (i : String) (target t : NodeState) (d' : Dict NodeState)
    → move d i target ≡ ok (t, d')
    → HasSet d i target d'
unfolding move
move-HasSet d i target t d' e = elim (Bool-cases (node_value target == node_value (current d i))) [
  | inl same ↦
      let q : ok (current d i, d) ≡ ok (t, d') = rw same at e in
      let same_state : current d i ≡ target = sym (
        node_value_inj target (current d i)
          ((eq_iff (node_value target) (node_value (current d i))).0 same)) in
      record { allowed = inl same_state; stored = inl (cc q, same_state) }
  | inr other ↦ elim (Bool-cases (is_in node_value (node_transitions (current d i)) target)) [
    | inl listed ↦
        let q : ok (target, insert i target d) ≡ ok (t, d') = rw (other, listed) at e in
        record { allowed = inr listed; stored = inr (cc q) }
    | inr missing ↦ cc (rw (other, missing) at e)
  ]
]

moved-ok : {A : Type 0} (call : Result TransitionError A) (a : A) → moved call ≡ ok a → call ≡ ok a
moved-ok (ok b) a e = ap (λ z. ok z) (cc e)
moved-ok (err x) a e = cc e

transition-HasSet :
    (d : Dict NodeState) (i : String) (target t : NodeState) (d' : Dict NodeState)
    → moved (transition_node d i (node_value target)) ≡ ok (t, d')
    → HasSet d i target d'
unfolding transition_node
transition-HasSet d i target t d' e = elim (Bool-cases (is_blank i)) [
  | inl blank ↦ cc (rw blank at e)
  | inr named ↦ move-HasSet d i target t d' (rw (named, node-member_of target) at (moved-ok _ _ e))
]

-- The same, from the statuses of a run in which the node's state was registered.
pub seeded-HasSet :
    (d : Dict NodeState) (i : String) (now target t : NodeState) (d' : Dict NodeState)
    → moved (transition_node (insert i now d) i (node_value target)) ≡ ok (t, d')
    → ((now ≡ target) ⊎ (is_in node_value (node_transitions now) target ≡ true))
      × (d' ≡ insert i target d)
      × (current d' i ≡ target)
seeded-HasSet d i now target t d' e =
    let set = transition-HasSet (insert i now d) i target t d' e in
    let seen : current (insert i now d) i ≡ now =
      get_or-insert i i now pending d ∙ rw (eq_refl i) refl in
    let stored : d' ≡ insert i target d = elim set.stored [
      | inl (kept, same) ↦ kept ∙ ap (λ z. insert i z d) (sym seen ∙ same)
      | inr put ↦ put ∙ insert-insert i target now d
    ] in
    let allowed : (now ≡ target) ⊎ (is_in node_value (node_transitions now) target ≡ true) =
      subst (λ z. (z ≡ target) ⊎ (is_in node_value (node_transitions z) target ≡ true)) seen
        set.allowed in
    (
      allowed,
      stored,
      ap (λ z. current z i) stored ∙ get_or-insert i i target pending d ∙ rw (eq_refl i) refl,
    )

-- The core after a node got a state.
abbrev after_set : Core → String → NodeState → Dict NodeState → Core
after_set c i target statuses = record c {
  run = record c.run { nodes = with_state i target c.run.nodes };
  node_statuses = statuses;
  published_states = some (state_rows (with_state i target c.run.nodes));
}

set-IsSynced :
    (c : Core) (i : String) (n : RunNode) (target : NodeState)
    → find_node c.run.nodes i ≡ some n
    → IsSynced c
    → IsSynced (after_set c i target (insert i target c.node_statuses))
set-IsSynced c i n target found synced = record {
  statuses =
      ap (insert i target) synced.statuses
      ∙ sym (statuses_of-with_state c.run.nodes i target n found);
  topology = synced.topology ∙ ap (λ z. some z) (sym (topology-with_state c.run i target));
  states = refl;
  distinct = rw (ids-with_state c.run.nodes i target) synced.distinct;
}

set-Advances :
    (role : String) (c : Core) (i : String) (n : RunNode) (target : NodeState)
    → find_node c.run.nodes i ≡ some n
    → (n.state ≡ target) ⊎ (is_in node_value (node_transitions n.state) target ≡ true)
    → may_set role target ≡ true
    → Advances role c (after_set c i target (insert i target c.node_statuses))
set-Advances role c i n target found allowed may = record {
  nodes = then_move i n target unchanged found allowed may;
  run_id = refl;
  terminal = refl;
  created = refl;
  published = refl;
  retries = λ bounded. bounded;
  reworks = λ bounded. bounded;
  more_retries = HasMore-refl c.retry_counts;
  more_reworks = HasMore-refl c.rework_counts;
  synced = set-IsSynced c i n target found;
}

-- A state has one run.
pub Leads-from :
    (role : String) (s t : State) (run : Run)
    → s.run ≡ some run
    → Advanced role (core s run) t
    → Leads role s t
Leads-from role s t run given advanced run' given' =
    let same : run ≡ run' = cc (given, given') in
    subst (λ r. Advanced role (core s r) t) same advanced

-- The move of one node of a run.
pub move_node-Leads :
    (role : String) (s : State) (run : Run) (i : String) (n : RunNode) (target : NodeState)
    → s.run ≡ some run
    → find_node run.nodes i ≡ some n
    → may_set role target ≡ true
    → Ensures (Leads role s) (move_node s run n target)
unfolding move_node
move_node-Leads role s run i n target given found may =
    let there : find_node run.nodes n.node_id ≡ some n =
      ap (find_node run.nodes) (find_node-node_id run.nodes i n found) ∙ found in
    let c = core s run in
    Ensures-bind
      (moved
        (transition_node (insert n.node_id n.state s.node_statuses) n.node_id (node_value target)))
      _
      (λ p moves.
        let (allowed, stored, seen) =
          seeded-HasSet s.node_statuses n.node_id n.state target p.0 p.1 moves in
        Ensures-ok _ (
          Leads-from role s _ run given (record {
            after = record run { nodes = with_state n.node_id (current p.1 n.node_id) run.nodes };
            is_run = refl;
            advances =
                subst (λ x. Advances role c (after_set c n.node_id x p.1)) (sym seen)
                  (subst (λ d. Advances role c (after_set c n.node_id target d)) (sym stored)
                    (set-Advances role c n.node_id n target there allowed may));
          })))

pub present-some :
    {A : Type 0} (o : Option A) (name : String) (a : A) → present o name ≡ ok a → o ≡ some a
present-some none name a e = cc e
present-some (some b) name a e = ap (λ z. some z) (cc e)

-- A run that was published.
pub record IsPublished (s : State) (run : Run) : Type 0 where
  pub given : s.run ≡ some run
  pub created : s.run_created ≡ true
  pub published : s.graph_published ≡ true

pub require_published_run-IsPublished :
    (s : State) (run : Run) → require_published_run s ≡ ok run → IsPublished s run
unfolding require_published_run
require_published_run-IsPublished s run e =
    let (r, there, guarded) =
      >>=-eq-ok (present s.run "requires run_created and graph_published") _ e in
    let (flags, same) = guard-eq-ok (s.run_created && s.graph_published) _ _ guarded in
    let (created, published) = both s.run_created s.graph_published flags in
    record {
      given = present-some s.run _ r there ∙ ap (λ z. some z) (cc same);
      created = created;
      published = published;
    }

-- _set_node_state
pub set_node_state-Leads :
    (role : String) (s : State) (i : String) (target : NodeState)
    → may_set role target ≡ true
    → Ensures (Leads role s) (set_node_state s i target)
unfolding set_node_state
set_node_state-Leads role s i target may = Ensures-bind _ _ (λ run published.
    Ensures-bind _ _ (λ n found.
      move_node-Leads role s run i n target
        (require_published_run-IsPublished s run published).given (present-some _ _ n found) may))
