-- ===== src/Reducer/Leads.antt =====
-- How the promises about the branches of src/graphori_core/reducer.py compose, and what the moves of an
-- attempt promise.
use graphori.Common.{ℕ, String, List, [], ◌∷◌, ◌≡◌, refl, subst, ◌∙◌, arith}
use graphori.Common.Dict.{Dict}
use graphori.Common.Result.{◌>>=◌}
use graphori.Common.Ensures.{Ensures, Ensures-ok, Ensures-bind}
use graphori.Event.{Checked}
use graphori.Lifecycle.Attempt.{Attempt, transition_attempt}
use graphori.Reducer.State.{RunNode, Run, State}
use graphori.Reducer.Steps.{move_attempt, moved}
use graphori.Reducer.Work.{move_attempt_through}
use graphori.Reducer.Contract.{
  Evolves, unchanged, then_move, then_grow, Core, core, HasMore, Advances, Leads,
}

Evolves-trans :
    (role : String) (ns ms ks : List RunNode)
    → Evolves role ns ms
    → Evolves role ms ks
    → Evolves role ns ks
Evolves-trans role ns ms _ before unchanged = before
Evolves-trans role ns ms ks before (then_move {ms = ls} i n target later found allowed may) =
    then_move i n target (Evolves-trans role ns ms ls before later) found allowed may
Evolves-trans role ns ms ks before (then_grow {ms = ls} n later fresh waits) =
    then_grow n (Evolves-trans role ns ms ls before later) fresh waits

pub HasMore-refl : (counts : Dict ℕ) → HasMore counts counts
HasMore-refl counts = record { at = λ i. omega arith }

HasMore-trans : (x y z : Dict ℕ) → HasMore x y → HasMore y z → HasMore x z
HasMore-trans x y z first later = record { at = λ i. omega (arith, first.at i, later.at i) }

Advances-refl : (role : String) (c : Core) → Advances role c c
Advances-refl role c = record {
  nodes = unchanged;
  run_id = refl;
  terminal = refl;
  created = refl;
  published = refl;
  retries = λ h. h;
  reworks = λ h. h;
  more_retries = HasMore-refl c.retry_counts;
  more_reworks = HasMore-refl c.rework_counts;
  synced = λ h. h;
}

Advances-trans :
    (role : String) (c d e : Core) → Advances role c d → Advances role d e → Advances role c e
Advances-trans role c d e a b = record {
  nodes = Evolves-trans role _ _ _ a.nodes b.nodes;
  run_id = b.run_id ∙ a.run_id;
  terminal = b.terminal ∙ a.terminal;
  created = b.created ∙ a.created;
  published = b.published ∙ a.published;
  retries = λ h. b.retries (a.retries h);
  reworks = λ h. b.reworks (a.reworks h);
  more_retries = HasMore-trans _ _ _ a.more_retries b.more_retries;
  more_reworks = HasMore-trans _ _ _ a.more_reworks b.more_reworks;
  synced = λ h. b.synced (a.synced h);
}

-- A state that keeps what the promises are about.
pub Leads-kept :
    (role : String) (s t : State)
    → t.run ≡ s.run
    → ((run : Run) → core s run ≡ core t run)
    → Leads role s t
Leads-kept role s t same_run same run given = record {
  after = run;
  is_run = same_run ∙ given;
  advances = subst (Advances role (core s run)) (same run) (Advances-refl role (core s run));
}

pub Leads-trans : (role : String) (s t u : State) → Leads role s t → Leads role t u → Leads role s u
Leads-trans role s t u first later run given =
    let a = first run given in
    let b = later a.after a.is_run in
    record {
      after = b.after;
      is_run = b.is_run;
      advances = Advances-trans role _ _ _ a.advances b.advances;
    }

module _ (role : String) (s : State) where
  -- A call after a first one.
  pub Ensures-then :
      {A : Type 0} (call : Checked A) (state : A → State) (rest : A → Checked State)
      → Ensures (λ a. Leads role s (state a)) call
      → ((a : A) → Ensures (Leads role (state a)) (rest a))
      → Ensures (Leads role s) (call >>= rest)
  Ensures-then call state rest first later = Ensures-bind call rest (λ a returned. record {
    at = λ t ended. Leads-trans role s (state a) t (first.at a returned) ((later a).at t ended);
  })

  pub move_attempt-Leads :
      (a : Attempt) (target : String) → Ensures (λ p. Leads role s p.0) (move_attempt s a target)
  unfolding move_attempt
  move_attempt-Leads a target =
      Ensures-bind (moved (transition_attempt a target)) _
        (λ next _. Ensures-ok _ (Leads-kept role s _ refl (λ run. refl)))

pub move_attempt_through-Leads :
    (role : String) (s : State) (a : Attempt) (targets : List String)
    → Ensures (λ p. Leads role s p.0) (move_attempt_through s a targets)
unfolding move_attempt_through
move_attempt_through-Leads role s a [] = Ensures-ok _ (Leads-kept role s s refl (λ run. refl))
move_attempt_through-Leads role s a (m ∷ ms) = Ensures-bind _ _ (λ p returned. record {
  at = λ q ended.
      Leads-trans role s p.0 q.0 ((move_attempt-Leads role s a m).at p returned)
        ((move_attempt_through-Leads role p.0 p.1 ms).at q ended);
})
