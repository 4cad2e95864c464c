-- ===== src/Risk/Laws.antt =====
-- The risk and the mode of a task: compile_risk of src/graphori_core/compiler.py.
use graphori.Common.{
  ℕ, ◌+◌, ◌*◌, ◌≤◌, String, List, [], ◌∷◌, ◌++◌, Bool, true, false, not, ◌&&◌, ◌||◌, is_empty,
  Option, some, ◌≡◌, refl, sym, ap, ◌∙◌, ◌↔◌, eq_iff, Bool-cases, arith, inl, inr,
}
use graphori.Common.Int.{ℤ, pos, leb_ℤ, clip, ◌≤ℤ◌}
use graphori.Risk.Input.{low, critical, level, fast_mode, critical_mode, depth, RiskInput}
use graphori.Risk.Compile.{
  is_true, is_false, hard_tagged, named_if, triggers, usage, score_of, scored, classify, unclear_of,
  compile_risk,
}

-- The hard triggers, as one test.
abbrev pub is_hard : RiskInput → Bool
is_hard raw =
    leb_ℤ (pos 3) raw.risk_level
    || leb_ℤ (pos 2) raw.uncertainty
    || hard_tagged raw.tags
    || is_true raw.external_effect
    || not raw.budget_ok

is_empty-append : (xs ys : List String) → is_empty (xs ++ ys) ≡ (is_empty xs && is_empty ys)
is_empty-append [] ys = refl
is_empty-append (x ∷ xs) ys = refl

is_empty-named_if : (b : Bool) (s : String) → is_empty (named_if b s) ≡ not b
is_empty-named_if true s = refl
is_empty-named_if false s = refl

triggers-is_hard : (raw : RiskInput) → not (is_empty (triggers raw)) ≡ is_hard raw
unfolding triggers
triggers-is_hard raw = rw (is_empty-append, is_empty-named_if) (ground arith)

classify-critical :
    (t u : Bool) (n : ℕ) (l : ℤ)
    → ((classify t u n l).1 ≡ critical_mode → t ≡ true)
      × (t ≡ true → classify t u n l ≡ (critical, critical_mode))
      × ((classify t u n l).0 ≡ critical → t ≡ true)
unfolding classify scored
classify-critical t u n l = (λ h. ground arith, λ h. ground arith, λ h. ground arith)

classify-fast :
    (t u : Bool) (n : ℕ) (l : ℤ)
    → ((classify t u n l).1 ≡ fast_mode → (t ≡ false) × (u ≡ false) × (n ≤ 2) × (l ≤ℤ pos 0))
      × ((t ≡ false) × (u ≡ false) × (n ≤ 2) × (l ≤ℤ pos 0) → classify t u n l ≡ (low, fast_mode))
unfolding classify
classify-fast t u n l =
    (λ h. (ground arith, ground arith, ground arith, ground arith), λ (a, b, c, d). ground arith)

-- A task is critical, in risk and in mode, exactly when one of the hard triggers holds: risk level 3,
-- uncertainty 2, a hard tag, an external effect, or a budget that is not kept.
pub compile_risk-critical :
    (raw : RiskInput)
    → ((compile_risk raw).mode ≡ critical_mode ↔ is_hard raw ≡ true)
      × ((compile_risk raw).risk ≡ critical ↔ is_hard raw ≡ true)
unfolding compile_risk
compile_risk-critical raw =
    let (mode_hard, hard_both, risk_hard) =
      classify-critical (not (is_empty (triggers raw))) (unclear_of raw) (score_of raw)
        raw.risk_level in
    let same = triggers-is_hard raw in
    (
      (λ h. sym same ∙ mode_hard h, λ h. ap (λ z. z.1) (hard_both (same ∙ h))),
      (λ h. sym same ∙ risk_hard h, λ h. ap (λ z. z.0) (hard_both (same ∙ h))),
    )

-- What a fast task must be known to be.
pub record IsHarmless (raw : RiskInput) : Type 0 where
  pub no_trigger : is_hard raw ≡ false
  pub usage_known : usage raw.usage_status ≡ "known"
  pub certain : raw.uncertainty ≤ℤ pos 0
  pub local : raw.local_only ≡ some true
  pub undoable : raw.reversible ≡ some true
  pub contained : raw.external_effect ≡ some false
  pub low_level : raw.risk_level ≤ℤ pos 0
  pub low_score : 2 * clip raw.scope + 2 * clip raw.synthesis + clip raw.parallelism ≤ 2

harmless_clear : (raw : RiskInput) → IsHarmless raw → unclear_of raw ≡ false
unfolding unclear_of
harmless_clear raw k =
    let certain = k.certain in
    rw (k.usage_known, k.local, k.undoable, k.contained) (ground (arith, certain))

harmless_score : (raw : RiskInput) → IsHarmless raw → score_of raw ≤ 2
unfolding score_of
harmless_score raw k =
    let a = k.certain in let b = k.low_level in let c = k.low_score in ground (arith, a, b, c)

is_true-eq : (o : Option Bool) → is_true o ≡ true → o ≡ some true
is_true-eq o h = ground arith

is_false-eq : (o : Option Bool) → is_false o ≡ true → o ≡ some false
is_false-eq o h = ground arith

-- A task is fast exactly when everything that makes it harmless is known: unknown usage, locality,
-- reversibility or external effect is enough to keep it from Fast.
pub compile_risk-fast :
    (raw : RiskInput)
    → ((compile_risk raw).mode ≡ fast_mode → IsHarmless raw)
      × (IsHarmless raw → (compile_risk raw).mode ≡ fast_mode)
unfolding compile_risk unclear_of score_of
compile_risk-fast raw =
    let (there, back) =
      classify-fast (not (is_empty (triggers raw))) (unclear_of raw) (score_of raw)
        raw.risk_level in
    let same = triggers-is_hard raw in
    (
      λ h.
          let (untriggered, clear, little, low_l) = there h in
          record {
            no_trigger = sym same ∙ untriggered;
            usage_known = (eq_iff (usage raw.usage_status) "known").0 (ground arith);
            certain = ground arith;
            local = is_true-eq raw.local_only (ground arith);
            undoable = is_true-eq raw.reversible (ground arith);
            contained = is_false-eq raw.external_effect (ground arith);
            low_level = low_l;
            low_score = ground arith;
          },
      λ k.
          ap (λ z. z.1)
            (back (same ∙ k.no_trigger, harmless_clear raw k, harmless_score raw k, k.low_level)),
    )

classify-monotone :
    (t u : Bool) (n : ℕ) (l : ℤ) (t' u' : Bool) (n' : ℕ) (l' : ℤ)
    → (t ≡ true → t' ≡ true)
    → (u ≡ true → u' ≡ true)
    → n ≤ n'
    → l ≤ℤ l'
    → (level (classify t u n l).0 ≤ level (classify t' u' n' l').0)
      × (depth (classify t u n l).1 ≤ depth (classify t' u' n' l').1)
unfolding classify scored
classify-monotone t u n l t' u' n' l' a b c d = (ground arith, ground arith)

-- b is at least as risky as a, and no more is known of b that would make it harmless.
pub record IsBelow (a b : RiskInput) : Type 0 where
  pub risk_level : a.risk_level ≤ℤ b.risk_level
  pub uncertainty : a.uncertainty ≤ℤ b.uncertainty
  pub scope : a.scope ≤ℤ b.scope
  pub synthesis : a.synthesis ≤ℤ b.synthesis
  pub parallelism : a.parallelism ≤ℤ b.parallelism
  pub tags : hard_tagged a.tags ≡ true → hard_tagged b.tags ≡ true
  pub usage_status : usage b.usage_status ≡ "known" → usage a.usage_status ≡ "known"
  pub budget_ok : b.budget_ok ≡ true → a.budget_ok ≡ true
  pub effect : is_true a.external_effect ≡ true → is_true b.external_effect ≡ true
  pub no_effect : is_false b.external_effect ≡ true → is_false a.external_effect ≡ true
  pub local_only : is_true b.local_only ≡ true → is_true a.local_only ≡ true
  pub reversible : is_true b.reversible ≡ true → is_true a.reversible ≡ true

below-is_hard : (a b : RiskInput) → IsBelow a b → is_hard a ≡ true → is_hard b ≡ true
below-is_hard a b k h =
    let l = k.risk_level in
    let u = k.uncertainty in
    let t = k.tags in let o = k.budget_ok in let e = k.effect in ground arith

below-score_of : (a b : RiskInput) → IsBelow a b → score_of a ≤ score_of b
unfolding score_of
below-score_of a b k =
    let l = k.risk_level in
    let u = k.uncertainty in
    let s = k.scope in let y = k.synthesis in let p = k.parallelism in ground arith

record IsClear (raw : RiskInput) : Type 0 where
  usage_known : usage raw.usage_status ≡ "known"
  certain : raw.uncertainty ≤ℤ pos 0
  local : is_true raw.local_only ≡ true
  undoable : is_true raw.reversible ≡ true
  contained : is_false raw.external_effect ≡ true

unclear_of-IsClear : (raw : RiskInput) → unclear_of raw ≡ false → IsClear raw
unfolding unclear_of
unclear_of-IsClear raw h = record {
  usage_known = (eq_iff (usage raw.usage_status) "known").0 (ground arith);
  certain = ground arith;
  local = ground arith;
  undoable = ground arith;
  contained = ground arith;
}

IsClear-unclear_of : (raw : RiskInput) → IsClear raw → unclear_of raw ≡ false
unfolding unclear_of
IsClear-unclear_of raw k =
    let certain = k.certain in
    rw (k.usage_known, k.local, k.undoable, k.contained) (ground (arith, certain))

-- Where nothing is unclear of b, nothing is of a.
below-unclear_of : (a b : RiskInput) → IsBelow a b → unclear_of a ≡ true → unclear_of b ≡ true
below-unclear_of a b k h = elim (Bool-cases (unclear_of b)) [
  | inl unclear ↦ unclear
  | inr clear ↦
      let c = unclear_of-IsClear b clear in
      let u = k.uncertainty in
      let v = c.certain in
      let clear_a = IsClear-unclear_of a (record {
        usage_known = k.usage_status c.usage_known;
        certain = omega (arith, u, v);
        local = k.local_only c.local;
        undoable = k.reversible c.undoable;
        contained = k.no_effect c.contained;
      }) in
      cc (h, clear_a)
]

-- More risk never compiles to a lower risk or to a shallower mode.
pub compile_risk-monotone :
    (a b : RiskInput)
    → IsBelow a b
    → (level (compile_risk a).risk ≤ level (compile_risk b).risk)
      × (depth (compile_risk a).mode ≤ depth (compile_risk b).mode)
unfolding compile_risk
compile_risk-monotone a b k =
    classify-monotone (not (is_empty (triggers a))) (unclear_of a) (score_of a) a.risk_level
      (not (is_empty (triggers b))) (unclear_of b) (score_of b) b.risk_level
      (λ h. triggers-is_hard b ∙ below-is_hard a b k (sym (triggers-is_hard a) ∙ h))
      (below-unclear_of a b k) (below-score_of a b k) k.risk_level
