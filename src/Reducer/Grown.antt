-- ===== src/Reducer/Grown.antt =====
-- rework_created of StateReducer.apply in src/graphori_core/reducer.py, next to the contract, and the
-- counts that it keeps.
use graphori.Common.{
  ℕ, ◌+◌, ◌≤◌, String, [], ◌∷◌, ◌++◌, true, ◌&&◌, contains, leb, Option, none, some, if◌then◌else◌,
  ◌≡◌, refl, sym, ap, subst, ◌∙◌, arith,
}
use graphori.Common.Dict.{insert, get_or}
use graphori.Common.Result.{ok, ◌>>=◌}
use graphori.Common.Ensures.{Ensures, Ensures-ok, Ensures-guard, Ensures-bind}
use graphori.Event.Value.{Fields, get, has}
use graphori.Event.{Checked, present, nonempty_string, is_none}
use graphori.Lifecycle.Node.{pending}
use graphori.Topology.Role.{worker, verifier, is_kind}
use graphori.Reducer.State.{RunNode, Run, State, find_node, statuses_of}
use graphori.Reducer.Snapshot.{topology_rows, state_rows}
use graphori.Reducer.Steps.{
  actor_role, payload_of, is_given, require_published_run, canonical_node_id,
}
use graphori.Reducer.Bindings.{
  Rework, rework_node, add_run_node, grow_graph, rework_ids, rework_created,
}
use graphori.Reducer.Contract.{Evolves, unchanged, then_grow, Core, core, IsSynced, Advances, Leads}
use graphori.Reducer.Nodes.{insert-grown, distinct-grown}
use graphori.Reducer.Leads.{HasMore-refl}
use graphori.Reducer.Handlers.{counted-IsBounded, counted-HasMore, counted-raised}
use graphori.Reducer.Moved.{Leads-from, require_published_run-IsPublished}

abbrev first_node : Rework → RunNode → RunNode
first_node ids original =
    rework_node ids.rework_node_id original.kind original.label worker "worker" ids.node_id
      ids.original_id

abbrev second_node : Rework → RunNode → RunNode
second_node ids judge =
    rework_node ids.rework_verifier_id verifier judge.label verifier "verifier" ids.verifier_id
      ids.verifier_id

-- A run with two nodes more, each new when it came.
record IsGrown (run : Run) (a b : RunNode) (grown : Run) : Type 0 where
  fresh_first : find_node run.nodes a.node_id ≡ none
  fresh_second : find_node (run.nodes ++ a ∷ []) b.node_id ≡ none
  nodes : grown.nodes ≡ (run.nodes ++ a ∷ []) ++ b ∷ []
  run_id : grown.run_id ≡ run.run_id
  terminal : grown.terminal_status ≡ run.terminal_status

is_none-none : {A : Type 0} (o : Option A) → is_none o ≡ true → o ≡ none
is_none-none none h = refl
is_none-none (some a) h = cc h

record IsAdded (run : Run) (n : RunNode) (t : Run) : Type 0 where
  fresh : find_node run.nodes n.node_id ≡ none
  same : record run { nodes = run.nodes ++ n ∷ [] } ≡ t

add_run_node-IsAdded : (run : Run) (n : RunNode) → Ensures (IsAdded run n) (add_run_node run n)
unfolding add_run_node
add_run_node-IsAdded run n =
    Ensures-guard (is_none (find_node run.nodes n.node_id)) _ _
      (λ fresh. Ensures-ok _ (record { fresh = is_none-none _ fresh; same = refl }))

grow_graph-IsGrown :
    (run : Run) (ids : Rework) (original judge : RunNode)
    → Ensures
        (IsGrown run (first_node ids original) (second_node ids judge))
        (grow_graph run ids original judge)
unfolding grow_graph
grow_graph-IsGrown run ids original judge =
    let a = first_node ids original in
    let b = second_node ids judge in
    Ensures-bind (add_run_node run a) _ (λ first added.
      Ensures-bind (add_run_node first b) _ (λ second added_next.
        let one = (add_run_node-IsAdded run a).at first added in
        let two = (add_run_node-IsAdded first b).at second added_next in
        let nodes_one : run.nodes ++ a ∷ [] ≡ first.nodes = ap (λ (r : Run). r.nodes) one.same in
        Ensures-ok _ (record {
          fresh_first = one.fresh;
          fresh_second = ap (λ ns. find_node ns b.node_id) nodes_one ∙ two.fresh;
          nodes =
              sym (ap (λ (r : Run). r.nodes) two.same) ∙ ap (λ ns. ns ++ b ∷ []) (sym nodes_one);
          run_id =
              sym (ap (λ (r : Run). r.run_id) two.same) ∙ sym (ap (λ (r : Run). r.run_id) one.same);
          terminal =
              sym (ap (λ (r : Run). r.terminal_status) two.same)
              ∙ sym (ap (λ (r : Run). r.terminal_status) one.same);
        })))

-- The node that a rework counts for: the one that the event calls the original, or its own.
abbrev pub original_of : Fields → Checked String
original_of e = canonical_node_id e >>= λ i.
    if has (payload_of e) "original_node_id"
    then nonempty_string (get (payload_of e) "original_node_id") "payload.original_node_id"
    else ok i

-- What the ids of a rework come with: the count of the original, raised and at most one.
record IsCounted (s : State) (e : Fields) (ids : Rework) (count : ℕ) : Type 0 where
  small : leb count 1 ≡ true
  raised : count ≡ get_or s.rework_counts ids.original_id 0 + 1
  original : original_of e ≡ ok ids.original_id

rework_ids-IsCounted :
    (s : State) (run : Run) (e : Fields) → Ensures (λ p. IsCounted s e p.0 p.1) (rework_ids s run e)
unfolding rework_ids
rework_ids-IsCounted s run e =
    let payload = payload_of e in
    Ensures-bind (canonical_node_id e) _ (λ i own.
      Ensures-bind
        (if has payload "original_node_id"
          then nonempty_string (get payload "original_node_id") "payload.original_node_id"
          else ok i)
        _
        (λ original_id named.
          Ensures-guard
            (is_given (find_node run.nodes i) && is_given (find_node run.nodes original_id)) _ _
            (λ _. Ensures-guard (leb (get_or s.rework_counts original_id 0 + 1) 1) _ _ (λ small.
              Ensures-bind (nonempty_string (get payload "rework_node_id") "payload.rework_node_id")
                _
                (λ a _.
                  Ensures-bind
                    (nonempty_string (get payload "verifier_node_id") "payload.verifier_node_id") _
                    (λ v _.
                      Ensures-bind
                        (nonempty_string (get payload "rework_verifier_node_id")
                          "payload.rework_verifier_node_id")
                        _
                        (λ b _.
                          Ensures-guard
                            (is_none (find_node run.nodes a) && is_none (find_node run.nodes b)) _ _
                            (λ _. Ensures-ok _ (record {
                              small = small;
                              raised = refl;
                              original = rw own named;
                            })))))))))

grown-IsSynced :
    (c d : Core) (a b : RunNode)
    → IsGrown c.run a b d.run
    → d.node_statuses ≡ insert b.node_id b.state (insert a.node_id a.state c.node_statuses)
    → d.published_topology ≡ some (topology_rows d.run)
    → d.published_states ≡ some (state_rows d.run.nodes)
    → IsSynced c
    → IsSynced d
grown-IsSynced c d a b g stored topology states synced = record {
  statuses =
      stored
      ∙ ap (insert b.node_id b.state)
          (ap (insert a.node_id a.state) synced.statuses ∙ insert-grown c.run.nodes a g.fresh_first)
      ∙ insert-grown (c.run.nodes ++ a ∷ []) b g.fresh_second
      ∙ ap statuses_of (sym g.nodes);
  topology = topology;
  states = states;
  distinct = rw g.nodes (
      distinct-grown (c.run.nodes ++ a ∷ []) b g.fresh_second
        (distinct-grown c.run.nodes a g.fresh_first synced.distinct));
}

-- The state after a rework.
abbrev reworked : State → Rework → ℕ → Run → State
reworked s ids count grown = record s {
  run = some grown;
  rework_counts = insert ids.original_id count s.rework_counts;
  rework_nodes = insert ids.original_id ids.rework_node_id s.rework_nodes;
  node_statuses =
      insert ids.rework_verifier_id pending (insert ids.rework_node_id pending s.node_statuses);
  published_topology = some (topology_rows grown);
  published_states = some (state_rows grown.nodes);
}

reworked-Advances :
    (role : String) (s : State) (run grown : Run) (ids : Rework) (count : ℕ)
    (original judge : RunNode)
    → IsGrown run (first_node ids original) (second_node ids judge) grown
    → leb count 1 ≡ true
    → count ≡ get_or s.rework_counts ids.original_id 0 + 1
    → Advances role (core s run) (core (reworked s ids count grown) grown)
reworked-Advances role s run grown ids count original judge g small raised =
    let a = first_node ids original in
    let b = second_node ids judge in
    record {
      nodes =
          subst (Evolves role run.nodes) (sym g.nodes)
            (then_grow b (then_grow a unchanged g.fresh_first refl) g.fresh_second refl);
      run_id = g.run_id;
      terminal = g.terminal;
      created = refl;
      published = refl;
      retries = λ h. h;
      reworks = counted-IsBounded s.rework_counts ids.original_id count small;
      more_retries = HasMore-refl s.retry_counts;
      more_reworks = counted-HasMore s.rework_counts ids.original_id count raised;
      synced = grown-IsSynced (core s run) _ a b g refl refl refl;
    }

pub rework_created-Leads :
    (s : State) (e : Fields) → Ensures (Leads (actor_role e) s) (rework_created s e)
unfolding rework_created
rework_created-Leads s e = Ensures-bind (require_published_run s) _ (λ run published.
    Ensures-guard (contains ("router" ∷ "human_gate" ∷ []) (actor_role e)) _ _ (λ _.
      Ensures-bind (rework_ids s run e) _ (λ (p : Rework × ℕ) named.
        Ensures-bind
          (present (find_node run.nodes p.0.node_id) "rework references unknown original node") _
          (λ original _.
            Ensures-bind
              (present (find_node run.nodes p.0.verifier_id)
                "rework requires the verifier that requested it")
              _
              (λ judge _. Ensures-guard (is_kind judge.kind verifier) _ _ (λ _.
                Ensures-bind (grow_graph run p.0 original judge) _ (λ grown returned. Ensures-ok _ (
                  Leads-from (actor_role e) s _ run
                    (require_published_run-IsPublished s run published).given
                    (let counted = (rework_ids-IsCounted s run e).at p named in
                      record {
                        after = grown;
                        is_run = refl;
                        advances =
                            reworked-Advances (actor_role e) s run grown p.0 p.1 original judge
                              ((grow_graph-IsGrown run p.0 original judge).at grown returned)
                              counted.small counted.raised;
                      })))))))))

-- An accepted rework raises the count of its original.
pub rework_created-counted :
    (s : State) (e : Fields) (i : String)
    → original_of e ≡ ok i
    → Ensures
        (λ t. get_or s.rework_counts i 0 + 1 ≤ get_or t.rework_counts i 0)
        (rework_created s e)
unfolding rework_created
rework_created-counted s e i asked = Ensures-bind (require_published_run s) _ (λ run _.
    Ensures-guard (contains ("router" ∷ "human_gate" ∷ []) (actor_role e)) _ _ (λ _.
      Ensures-bind (rework_ids s run e) _ (λ (p : Rework × ℕ) named.
        Ensures-bind
          (present (find_node run.nodes p.0.node_id) "rework references unknown original node") _
          (λ original _.
            Ensures-bind
              (present (find_node run.nodes p.0.verifier_id)
                "rework requires the verifier that requested it")
              _
              (λ judge _. Ensures-guard (is_kind judge.kind verifier) _ _ (λ _.
                Ensures-bind (grow_graph run p.0 original judge) _ (λ grown returned.
                  let counted = (rework_ids-IsCounted s run e).at p named in
                  let same : p.0.original_id ≡ i = cc (counted.original, asked) in
                  Ensures-ok _ (
                    rw (sym same, counted.raised)
                      (omega (arith, counted-raised s.rework_counts p.0.original_id))))))))))
