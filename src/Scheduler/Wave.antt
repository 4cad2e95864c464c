-- ===== src/Scheduler/Wave.antt =====
-- The selection loop: what holds of the nodes that it selects.
use mathlib.Core.Logic.Or
use mathlib.Core.Logic.{◌∨₁◌, ∨₁_prop}
use mathlib.Core.List.{mem-append, mem-singleton, append_assoc}
use graphori.Common.{
  ◌≤◌, ◌<◌, List, [], ◌∷◌, ◌++◌, Mem, true, false, any, is_empty, length, length-append, ◌≡◌, ◌≢◌,
  sym, ap, ◌∙◌, arith, Bool-cases, inl, inr, ◌⊎◌, any-false, Bool-set,
}
use graphori.Plan.Node.{NodeSpec, NodeSpec-set}
use graphori.Scheduler.State.{SchedulerPolicy}
use graphori.Scheduler.Scope.{scope_conflict}
use graphori.Scheduler.Overlap.{scope_conflict_comm}
use graphori.Scheduler.Cost.{profitable}
use graphori.Scheduler.Decide.{admits, select, free_slots}

-- Two different nodes of the list never conflict.
abbrev pub IsConflictFree : List NodeSpec → Type 0
IsConflictFree nodes =
    (m n : NodeSpec)
    → Mem m nodes
    → Mem n nodes
    → m.node_id ≢ n.node_id
    → scope_conflict m n ≡ false

module _ (policy : SchedulerPolicy) (active : List NodeSpec) where
  -- What every turn keeps holds at the end.
  pub select_ind {κ} :
      (P : List NodeSpec → Type κ)
      → ((selected : List NodeSpec) (c : NodeSpec)
          → P selected
          → admits policy active selected c ≡ true
          → P (selected ++ c ∷ []))
      → (selected candidates : List NodeSpec) → P selected
      → P (select policy active selected candidates).0
  unfolding select
  select_ind P turn selected [] p = p
  select_ind P turn selected (c ∷ cs) p = elim (Bool-cases (admits policy active selected c)) [
    | inl taken ↦ rw taken (select_ind P turn (selected ++ c ∷ []) cs (turn selected c p taken))
    | inr passed ↦ rw passed (select_ind P turn selected cs p)
  ]

  admits-slot :
      (selected : List NodeSpec) (c : NodeSpec)
      → admits policy active selected c ≡ true
      → length selected < free_slots policy active
  unfolding admits
  admits-slot selected c h = ground arith

  admits-free :
      (selected : List NodeSpec) (c : NodeSpec)
      → admits policy active selected c ≡ true
      → any (active ++ selected) (λ other. scope_conflict c other) ≡ false
  unfolding admits
  admits-free selected c h = ground arith

  admits-gain :
      (selected : List NodeSpec) (c : NodeSpec)
      → admits policy active selected c ≡ true
      → (is_empty selected ≡ true) ⊎ (profitable policy (selected ++ c ∷ []) ≡ true)
  unfolding admits
  admits-gain selected c h = ground arith

  -- The free slots are never exceeded.
  pub select-le_slots :
      (candidates : List NodeSpec)
      → length (select policy active [] candidates).0 ≤ free_slots policy active
  select-le_slots candidates =
      select_ind (λ s. length s ≤ free_slots policy active)
        (λ s c p h. omega (arith, length-append s (c ∷ []), admits-slot s c h)) [] candidates
        (omega arith)

  last_or_before :
      (selected : List NodeSpec) (c x : NodeSpec)
      → Mem x (active ++ (selected ++ c ∷ []))
      → Mem x (active ++ selected) ∨₁ (x ≡ c)
  last_or_before selected c x m =
      let m' : Mem x ((active ++ selected) ++ c ∷ []) = rw append_assoc m in
      Or.elim ∨₁_prop (mem-append.0 m') Or.inl
        (λ last. Or.inr ((mem-singleton NodeSpec-set).0 last))

  grow-IsConflictFree :
      (selected : List NodeSpec) (c : NodeSpec)
      → IsConflictFree (active ++ selected)
      → admits policy active selected c ≡ true
      → IsConflictFree (active ++ (selected ++ c ∷ []))
  grow-IsConflictFree selected c old h m n mm mn ne =
      Or.elim (Bool-set _ _) (last_or_before selected c m mm)
        (λ m_old.
          Or.elim (Bool-set _ _) (last_or_before selected c n mn) (λ n_old. old m n m_old n_old ne)
            (λ n_new. rw n_new (scope_conflict_comm m c ∙ clear m m_old)))
        (λ m_new.
          Or.elim (Bool-set _ _) (last_or_before selected c n mn)
            (λ n_old. rw m_new (clear n n_old))
            (λ n_new. absurd (ne (ap (λ (x : NodeSpec). x.node_id) (m_new ∙ sym n_new)))))
    where
      clear : (x : NodeSpec) → Mem x (active ++ selected) → scope_conflict c x ≡ false
      clear = any-false (λ other. scope_conflict c other) _ (admits-free selected c h)

  -- Selected nodes conflict neither with active nodes nor with each other.
  pub select-IsConflictFree :
      (candidates : List NodeSpec)
      → IsConflictFree (active ++ [])
      → IsConflictFree (active ++ (select policy active [] candidates).0)
  select-IsConflictFree candidates h =
      select_ind (λ s. IsConflictFree (active ++ s)) grow-IsConflictFree [] candidates h

  -- A wave of two nodes or more as a whole passed the profit test.
  pub select-profitable :
      (candidates : List NodeSpec)
      → 1 < length (select policy active [] candidates).0
      → profitable policy (select policy active [] candidates).0 ≡ true
  select-profitable candidates =
      select_ind (λ s. 1 < length s → profitable policy s ≡ true)
        (λ s c p h. grows s c (admits-gain s c h)) [] candidates
        (λ impossible. absurd (omega arith))
    where
      grows :
          (s : List NodeSpec) (c : NodeSpec)
          → (is_empty s ≡ true) ⊎ (profitable policy (s ++ c ∷ []) ≡ true)
          → 1 < length (s ++ c ∷ [])
          → profitable policy (s ++ c ∷ []) ≡ true
      grows s c (inr gain) two = gain
      grows [] c (inl first) two = absurd (omega arith)
      grows (x ∷ xs) c (inl first) two = cc first
