-- ===== src/Reducer/Counts.antt =====
-- Retries and reworks in a run of events through StateReducer.apply of src/graphori_core/reducer.py:
-- the events that create them, next to the counts that the reducer keeps.
use graphori.Common.{
  ℕ, ◌+◌, ◌≤◌, String, [], ◌∷◌, Bool, true, false, not, ◌&&◌, contains, if◌then◌else◌, ◌==◌, ◌≡◌,
  sym, ap, Bool-cases, inl, inr, arith, both, eq_iff,
}
use graphori.Common.Dict.{get_or}
use graphori.Common.Result.{ok, err}
use graphori.Common.Ensures.{Ensures, Ensures-bind, Ensures-guard}
use graphori.Event.{Checked, validate_event_envelope}
use graphori.Event.Value.{Fields}
use graphori.Reducer.State.{Run, State}
use graphori.Reducer.Steps.{event_type, validate_context, canonical_node_id}
use graphori.Reducer.Apply.{check_run, dispatch, apply}
use graphori.Reducer.Moved.{IsPublished}
use graphori.Reducer.Handlers.{retry_created-counted}
use graphori.Reducer.Grown.{original_of, rework_created-counted}
use graphori.Reducer.Laws.{advanced, ended, apply-Changes}
use graphori.Reducer.Reaches.{Reaches, no_event, then_event, IsSound, Reaches-IsSound}

-- A call that returns the text.
abbrev names : String → Checked String → Bool
names i (ok j) = j == i
names i (err e) = false

names-ok : (i : String) (m : Checked String) → names i m ≡ true → m ≡ ok i
names-ok i (ok j) h = ap (λ z. ok z) ((eq_iff j i).0 h)
names-ok i (err e) h = cc h

-- An event that retries the node, and one that reworks it as an original.
abbrev is_retry : String → Fields → Bool
is_retry i e = event_type e == "retry_created" && names i (canonical_node_id e)

abbrev is_rework : String → Fields → Bool
is_rework i e = event_type e == "rework_created" && names i (original_of e)

-- How many of the events retry the node, and how many rework it.
abbrev pub retries : {s t : State} → String → Reaches s t → ℕ
retries i no_event = 0
retries i (then_event e before _) = retries i before + (if is_retry i e then 1 else 0)

abbrev pub reworks : {s t : State} → String → Reaches s t → ℕ
reworks i no_event = 0
reworks i (then_event e before _) = reworks i before + (if is_rework i e then 1 else 0)

-- An event that was accepted went through its branch.
dispatched :
    (P : State → Type 0) (s : State) (e : Fields) (t : State)
    → Ensures P (dispatch s e)
    → apply s e ≡ ok t
    → P t
unfolding apply
dispatched P s e t through returned =
    (Ensures-bind (validate_event_envelope e) _ (λ _ _.
        Ensures-bind (validate_context s e) _ (λ _ _. Ensures-bind (check_run s) _ (λ _ _.
          Ensures-guard (not (contains ("node_created" ∷ "edge_created" ∷ []) (event_type e))) _ _
            (λ _. through))))).at
      t returned

module _ (s : State) (run : Run) (e : Fields) (t : State) (i : String) (p : IsPublished s run)
    (returned : apply s e ≡ ok t) where
  apply-retried :
      get_or s.retry_counts i 0 + (if is_retry i e then 1 else 0) ≤ get_or t.retry_counts i 0
  unfolding dispatch
  apply-retried = elim (Bool-cases (is_retry i e)) [
    | inl retried ↦
        let (kind, named) = both _ _ retried in
        let is_type = (eq_iff (event_type e) "retry_created").0 kind in
        rw retried (
          dispatched (λ u. get_or s.retry_counts i 0 + 1 ≤ get_or u.retry_counts i 0) s e t
            (rw is_type (retry_created-counted s e run i p.given (names-ok i _ named))) returned)
    | inr other ↦ rw other (elim (apply-Changes s run e t p returned) [
      | advanced a ↦ omega (arith, a.advances.more_retries.at i)
      | ended x ↦ rw (sym (ap (λ (z : State). z.retry_counts) x.result)) (omega arith)
    ])
  ]

  apply-reworked :
      get_or s.rework_counts i 0 + (if is_rework i e then 1 else 0) ≤ get_or t.rework_counts i 0
  unfolding dispatch
  apply-reworked = elim (Bool-cases (is_rework i e)) [
    | inl reworked ↦
        let (kind, named) = both _ _ reworked in
        let is_type = (eq_iff (event_type e) "rework_created").0 kind in
        rw reworked (
          dispatched (λ u. get_or s.rework_counts i 0 + 1 ≤ get_or u.rework_counts i 0) s e t
            (rw is_type (rework_created-counted s e i (names-ok i _ named))) returned)
    | inr other ↦ rw other (elim (apply-Changes s run e t p returned) [
      | advanced a ↦ omega (arith, a.advances.more_reworks.at i)
      | ended x ↦ rw (sym (ap (λ (z : State). z.rework_counts) x.result)) (omega arith)
    ])
  ]

Reaches-counted :
    (s : State) (run : Run) (t : State) (i : String)
    → IsSound s run
    → (r : Reaches s t)
    → (get_or s.retry_counts i 0 + retries i r ≤ get_or t.retry_counts i 0)
      × (get_or s.rework_counts i 0 + reworks i r ≤ get_or t.rework_counts i 0)
Reaches-counted s run _ i h no_event = (omega arith, omega arith)
Reaches-counted s run t i h (then_event {t = u} e before returned) =
    let k = Reaches-IsSound s run u h before in
    let (retried, reworked) = Reaches-counted s run u i h before in
    (
      omega (arith, retried, apply-retried u k.now e t i k.sound.published returned),
      omega (arith, reworked, apply-reworked u k.now e t i k.sound.published returned),
    )

-- Of the events that a sound published run accepts, at most one creates a retry of a node, and at most
-- one creates a rework whose original is that node: the one that the event calls the original, or,
-- where it calls none, the node that it names.
pub Reaches-retries :
    (s : State) (run : Run) (t : State) (i : String)
    → IsSound s run
    → (r : Reaches s t) → (retries i r ≤ 1) × (reworks i r ≤ 1)
Reaches-retries s run t i h r =
    let (retried, reworked) = Reaches-counted s run t i h r in
    let k = Reaches-IsSound s run t h r in
    (omega (arith, retried, k.sound.retries.at i), omega (arith, reworked, k.sound.reworks.at i))
