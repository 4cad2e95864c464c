-- ===== src/Reducer/Recorded.antt =====
-- The branches of StateReducer.apply in src/graphori_core/reducer.py that only record: bindings,
-- resources, observations, gates and platform verdicts, next to the contract.
use graphori.Common.{String, [], ◌∷◌, not, ◌&&◌, ◌||◌, all, contains, if◌then◌else◌, ◌==◌, refl}
use graphori.Common.Dict.{lookup}
use graphori.Common.Ensures.{Ensures, Ensures-ok, Ensures-guard, Ensures-bind}
use graphori.Event.Value.{Fields, get, has, text_of}
use graphori.Event.Same.{same_fields}
use graphori.Event.{nonempty_string, is_none}
use graphori.Reducer.State.{State}
use graphori.Reducer.Snapshot.{same_texts}
use graphori.Reducer.Steps.{
  text_in, payload_of, actor_role, is_given, require_published_run, canonical_node_id,
  canonical_attempt_id, attempt_of,
}
use graphori.Reducer.Bindings.{
  identities, texts_at, agrees, runtime_binding_recorded, dispositions, runtime_resource_changed,
  routing_observed,
}
use graphori.Reducer.Verdicts.{gate_created, gate_resolved}
use graphori.Reducer.Platforms.{platform_statuses, optional_text, platform_verdict_recorded}
use graphori.Reducer.Contract.{Leads}
use graphori.Reducer.Leads.{Leads-kept}

module _ (role : String) (s : State) (e : Fields) where
  pub runtime_binding_recorded-Leads : Ensures (Leads role s) (runtime_binding_recorded s e)
  unfolding runtime_binding_recorded
  runtime_binding_recorded-Leads = Ensures-bind (require_published_run s) _ (λ _ _.
      Ensures-guard (actor_role e == "router") _ _ (λ _.
        Ensures-bind (canonical_node_id e) _ (λ i _.
          Ensures-bind (canonical_attempt_id e) _ (λ attempt_id _.
            Ensures-bind (attempt_of s attempt_id i) _ (λ _ _.
              Ensures-guard (all identities (λ name. not (text_in (get (payload_of e) name) == "")))
                _ _
                (λ _.
                  Ensures-guard
                    (agrees same_texts (lookup attempt_id s.runtime_bindings)
                      (texts_at (payload_of e) identities))
                    _ _ (λ _. Ensures-ok _ (Leads-kept role s _ refl (λ run. refl)))))))))

  pub runtime_resource_changed-Leads : Ensures (Leads role s) (runtime_resource_changed s e)
  unfolding runtime_resource_changed
  runtime_resource_changed-Leads = Ensures-bind (require_published_run s) _ (λ _ _.
      Ensures-guard (actor_role e == "router") _ _ (λ _.
        Ensures-bind (canonical_node_id e) _ (λ _ _.
          Ensures-bind
            (nonempty_string (get (payload_of e) "external_dispatch_id")
              "payload.external_dispatch_id")
            _
            (λ _ _.
              Ensures-bind
                (nonempty_string (get (payload_of e) "disposition") "payload.disposition") _
                (λ disposition _.
                  Ensures-guard (contains dispositions disposition) _ _
                    (λ _. Ensures-ok _ (Leads-kept role s _ refl (λ run. refl))))))))

  pub routing_observed-Leads : Ensures (Leads role s) (routing_observed s e)
  unfolding routing_observed
  routing_observed-Leads = Ensures-bind (require_published_run s) _ (λ _ _.
      Ensures-guard (actor_role e == "router") _ _ (λ _.
        Ensures-bind (canonical_node_id e) _ (λ i _.
          Ensures-bind (canonical_attempt_id e) _ (λ attempt_id _.
            Ensures-bind (attempt_of s attempt_id i) _ (λ _ _.
              Ensures-guard
                (all ("requested_model" ∷ "requested_effort" ∷ "observed_model" ∷ [])
                  (λ name. not (is_none (text_of (get (payload_of e) name)))))
                _ _
                (λ _.
                  Ensures-guard
                    (agrees same_fields (lookup attempt_id s.routing_observations) (payload_of e)) _
                    _ (λ _. Ensures-ok _ (Leads-kept role s _ refl (λ run. refl)))))))))

  pub gate_created-Leads : Ensures (Leads role s) (gate_created s e)
  unfolding gate_created
  gate_created-Leads = Ensures-bind (require_published_run s) _ (λ _ _.
      Ensures-guard (actor_role e == "router") _ _ (λ _.
        Ensures-bind (nonempty_string (get (payload_of e) "gate_id") "payload.gate_id") _
          (λ gate_id _.
            Ensures-bind (nonempty_string (get (payload_of e) "reason") "payload.reason") _ (λ _ _.
              Ensures-guard (not (is_given (lookup gate_id s.open_gates))) _ _
                (λ _. Ensures-ok _ (Leads-kept role s _ refl (λ run. refl)))))))

  pub gate_resolved-Leads : Ensures (Leads role s) (gate_resolved s e)
  unfolding gate_resolved
  gate_resolved-Leads = Ensures-bind (require_published_run s) _ (λ _ _.
      Ensures-bind (nonempty_string (get (payload_of e) "decision") "payload.decision") _
        (λ decision _.
          Ensures-guard
            (actor_role e == (if decision == "cancelled" then "router" else "human_gate")) _ _
            (λ _.
              Ensures-guard
                (contains ("approve" ∷ "use_fallback" ∷ "skip" ∷ "cancelled" ∷ []) decision) _ _
                (λ _.
                  Ensures-bind (nonempty_string (get (payload_of e) "gate_id") "payload.gate_id") _
                    (λ gate_id _. Ensures-guard (is_given (lookup gate_id s.open_gates)) _ _ (λ _.
                      Ensures-bind (canonical_node_id e) _
                        (λ _ _. Ensures-ok _ (Leads-kept role s _ refl (λ run. refl)))))))))

  pub platform_verdict_recorded-Leads : Ensures (Leads role s) (platform_verdict_recorded s e)
  unfolding platform_verdict_recorded
  platform_verdict_recorded-Leads =
      let payload = payload_of e in
      let passes = text_in (get payload "status") == "pass" in
      Ensures-bind (require_published_run s) _ (λ _ _.
        Ensures-bind
          (nonempty_string
            (if has payload "platform" then get payload "platform" else get e "platform")
            "platform")
          _
          (λ _ _.
            Ensures-guard (contains platform_statuses (text_in (get payload "status"))) _ _ (λ _.
              Ensures-bind (optional_text (get payload "fixture_id") "fixture_id") _
                (λ fixture_id _.
                  Ensures-bind (optional_text (get payload "snapshot_id") "snapshot_id") _
                    (λ snapshot_id _.
                      Ensures-bind (optional_text (get payload "evidence_id") "evidence_id") _
                        (λ evidence_id _.
                          Ensures-guard (not passes || not (is_none evidence_id)) _ _ (λ _.
                            Ensures-guard
                              (not passes || not (is_none fixture_id && is_none snapshot_id)) _ _
                              (λ _. Ensures-ok _ (Leads-kept role s _ refl (λ run. refl))))))))))
