-- ===== src/Plan/Build/Producers.antt =====
-- The proof_producers loop of RunPlan.__post_init__ in src/graphori_core/run_plan.py.
use mathlib.Core.Logic.Or
use mathlib.Core.List.{mem-cons, not-mem-nil}
use graphori.Common.{
  String, List, [], ◌∷◌, Mem, Bool, true, false, not, ◌||◌, any, contains, subset, ◌≡◌, sym, ◌∙◌,
  arith, Bool-cases, inl, inr, eq_iff, ◌==◌, Bool-set,
}
use graphori.Common.Result.{ok, ◌>>=◌, >>=-eq-ok, guard-eq-ok}
use graphori.Plan.Node.{NodeSpec, NodeSpec-set}
use graphori.Plan.Build.{add_producers, producers, unknown_dependencies, multiple_producers}

-- One step of each loop, inverted.
add_producers_step :
    (seen ps seen' : List String) (p : String)
    → add_producers seen (p ∷ ps) ≡ ok seen'
    → (contains seen p ≡ false) × (add_producers (p ∷ seen) ps ≡ ok seen')
unfolding add_producers
add_producers_step seen ps seen' p e =
    let (new, rest) =
      guard-eq-ok (not (contains seen p)) (multiple_producers p) (add_producers (p ∷ seen) ps) e in
    (ground arith, rest)

producers_step :
    (known seen seen' : List String) (n : NodeSpec) (ns : List NodeSpec)
    → producers known seen (n ∷ ns) ≡ ok seen'
    → (subset n.dependencies known ≡ true)
      × (mid : List String) × (add_producers seen n.closes_proofs ≡ ok mid)
      × (producers known mid ns ≡ ok seen')
unfolding producers
producers_step known seen seen' n ns e =
    let rest_of = λ (mid : List String). producers known mid ns in
    let (deps, rest) =
      guard-eq-ok (subset n.dependencies known) (unknown_dependencies n.node_id)
        (add_producers seen n.closes_proofs >>= rest_of) e in
    let (mid, added, later) = >>=-eq-ok (add_producers seen n.closes_proofs) rest_of rest in
    (deps, mid, added, later)

-- Adding the proofs of one node: they were new, and they are all that is added.
pub add_producers-contains :
    (ps seen seen' : List String) (a : String)
    → add_producers seen ps ≡ ok seen'
    → contains seen' a ≡ (contains seen a || contains ps a)
unfolding add_producers
add_producers-contains [] seen seen' a e =
    let same : seen ≡ seen' = cc e in rw (← same) (ground arith)
add_producers-contains (p ∷ ps) seen seen' a e =
    let (new, rest) = add_producers_step seen ps seen' p e in
    ground (arith, add_producers-contains ps (p ∷ seen) seen' a rest)

add_producers-new :
    (ps seen seen' : List String) (a : String)
    → add_producers seen ps ≡ ok seen'
    → contains ps a ≡ true
    → contains seen a ≡ false
unfolding add_producers
add_producers-new [] seen seen' a e h = cc h
add_producers-new (p ∷ ps) seen seen' a e h =
    let (new, rest) = add_producers_step seen ps seen' p e in
    elim (Bool-cases (p == a)) [
      | inl here ↦ let same = (eq_iff p a).0 here in rw (← same) (ground arith)
      | inr other ↦ ground (arith, add_producers-new ps (p ∷ seen) seen' a rest)
    ]

-- A node closes the proof `a`.
abbrev pub closes : String → NodeSpec → Bool
closes a n = contains n.closes_proofs a

module _ (known : List String) where
  pub producers-contains :
      (nodes : List NodeSpec) (seen seen' : List String) (a : String)
      → producers known seen nodes ≡ ok seen'
      → contains seen' a ≡ (contains seen a || any nodes (closes a))
  unfolding producers
  producers-contains [] seen seen' a e =
      let same : seen ≡ seen' = cc e in rw (← same) (ground arith)
  producers-contains (x ∷ xs) seen seen' a e =
      let (deps, mid, added, later) = producers_step known seen seen' x xs e in
      ground (
        arith,
        add_producers-contains x.closes_proofs seen mid a added,
        producers-contains xs mid seen' a later,
      )

  pub producers-deps :
      (nodes : List NodeSpec) (seen seen' : List String)
      → producers known seen nodes ≡ ok seen'
      → (n : NodeSpec) → Mem n nodes
      → subset n.dependencies known ≡ true
  producers-deps [] seen seen' e n m = absurd (not-mem-nil m)
  producers-deps (x ∷ xs) seen seen' e n m =
      let (deps, mid, added, later) = producers_step known seen seen' x xs e in
      Or.elim (Bool-set _ _) (mem-cons.0 m) (λ here. rw here deps)
        (λ there. producers-deps xs mid seen' later n there)

  pub producers-new :
      (nodes : List NodeSpec) (seen seen' : List String)
      → producers known seen nodes ≡ ok seen'
      → (n : NodeSpec) → Mem n nodes
      → (a : String) → closes a n ≡ true
      → contains seen a ≡ false
  producers-new [] seen seen' e n m a h = absurd (not-mem-nil m)
  producers-new (x ∷ xs) seen seen' e n m a h =
      let (deps, mid, added, later) = producers_step known seen seen' x xs e in
      Or.elim (Bool-set _ _) (mem-cons.0 m)
        (λ here. add_producers-new x.closes_proofs seen mid a added (rw here at h))
        (λ there. ground (
          arith,
          add_producers-contains x.closes_proofs seen mid a added,
          producers-new xs mid seen' later n there a h,
        ))

  pub producers-sole :
      (nodes : List NodeSpec) (seen seen' : List String)
      → producers known seen nodes ≡ ok seen'
      → (m n : NodeSpec) → Mem m nodes
      → Mem n nodes
      → (a : String) → closes a m ≡ true
      → closes a n ≡ true
      → m ≡ n
  producers-sole [] seen seen' e m n mm mn a hm hn = absurd (not-mem-nil mm)
  producers-sole (x ∷ xs) seen seen' e m n mm mn a hm hn =
      let (deps, mid, added, later) = producers_step known seen seen' x xs e in
      let clash =
        λ (w : NodeSpec) (w_in : Mem w xs) (hw : closes a w ≡ true) (hx : closes a x ≡ true).
          let taken = producers-new xs mid seen' later w w_in a hw in
          let has = add_producers-contains x.closes_proofs seen mid a added in
          let bad : ⊥ = ground arith in bad in
      Or.elim (NodeSpec-set _ _) (mem-cons.0 mm)
        (λ m_here.
          Or.elim (NodeSpec-set _ _) (mem-cons.0 mn) (λ n_here. m_here ∙ sym n_here)
            (λ n_there. absurd (clash n n_there hn (rw m_here at hm))))
        (λ m_there.
          Or.elim (NodeSpec-set _ _) (mem-cons.0 mn)
            (λ n_here. absurd (clash m m_there hm (rw n_here at hn)))
            (λ n_there. producers-sole xs mid seen' later m n m_there n_there a hm hn))
