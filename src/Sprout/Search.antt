-- ===== src/Sprout/Search.antt =====
-- The loop of ProofFrontier._cover in src/graphori_core/sprout.py: what it keeps of the groups that it
-- is given.
use graphori.Common.{
  ℕ, String, List, [], ◌∷◌, true, false, Option, none, some, ◌≡◌, refl, sym, subst, ◌∙◌, inl, inr,
  Bool-cases, Option-cases, arith,
}
use graphori.Common.Int.{ℤ, ◌≤ℤ◌}
use graphori.Sprout.Cover.{Candidate, is_eligible, Key, key_of, key_lt, better, best_of}
use graphori.Sprout.Groups.{Every, every_none, every_one, Has, here, there}

-- A smaller key has no larger latency, and a key that is not smaller has no smaller latency.
key_lt-latency : (a b : Key) → key_lt a b ≡ true → a.latency ≤ℤ b.latency
unfolding key_lt
key_lt-latency a b h = ground arith

not-key_lt-latency : (a b : Key) → key_lt a b ≡ false → b.latency ≤ℤ a.latency
unfolding key_lt
not-key_lt-latency a b h = ground arith

≤ℤ_trans : (a b c : ℤ) → a ≤ℤ b → b ≤ℤ c → a ≤ℤ c
≤ℤ_trans a b c p q = ground arith

≤ℤ_refl : (a : ℤ) → a ≤ℤ a
≤ℤ_refl a = ground arith

module _ (required : List String) (max_wip : ℕ) where
  abbrev latency : List Candidate → ℤ
  latency g = (key_of max_wip g).latency

  -- A group was found, with at most some latency.
  abbrev IsWithin : Option (List Candidate) → ℤ → Type 0
  IsWithin best l = (g : List Candidate) × (best ≡ some g) × (latency g ≤ℤ l)

  better-old :
      (best : Option (List Candidate)) (g : List Candidate) (l : ℤ)
      → IsWithin best l
      → IsWithin (better required max_wip best g) l
  unfolding better
  better-old none g l (b, found, small) = cc found
  better-old (some old) g l (b, found, small) =
      let same : old ≡ b = cc found in
      let old_small : latency old ≤ℤ l = subst (λ z. latency z ≤ℤ l) (sym same) small in
      elim (Bool-cases (is_eligible required g)) [
        | inr out ↦ (old, rw out refl, old_small)
        | inl fits ↦ elim (Bool-cases (key_lt (key_of max_wip g) (key_of max_wip old))) [
          | inl less ↦ (
            g,
            rw (fits, less) refl,
            ≤ℤ_trans (latency g) (latency old) l
                (key_lt-latency (key_of max_wip g) (key_of max_wip old) less) old_small,
          )
          | inr more ↦ (old, rw (fits, more) refl, old_small)
        ]
      ]

  better-new :
      (best : Option (List Candidate)) (g : List Candidate)
      → is_eligible required g ≡ true
      → IsWithin (better required max_wip best g) (latency g)
  unfolding better
  better-new none g fits = (g, rw fits refl, ≤ℤ_refl (latency g))
  better-new (some old) g fits =
      elim (Bool-cases (key_lt (key_of max_wip g) (key_of max_wip old))) [
        | inl less ↦ (g, rw (fits, less) refl, ≤ℤ_refl (latency g))
        | inr more ↦ (
          old,
          rw (fits, more) refl,
          not-key_lt-latency (key_of max_wip g) (key_of max_wip old) more,
        )
      ]

  best_of-old :
      (gs : List (List Candidate)) (best : Option (List Candidate)) (l : ℤ)
      → IsWithin best l
      → IsWithin (best_of required max_wip best gs) l
  unfolding best_of
  best_of-old [] best l h = h
  best_of-old (g ∷ gs) best l h = best_of-old gs _ l (better-old best g l h)

  pub best_of-new :
      (gs : List (List Candidate)) (best : Option (List Candidate)) (g : List Candidate)
      → Has g gs
      → is_eligible required g ≡ true
      → IsWithin (best_of required max_wip best gs) (latency g)
  unfolding best_of
  best_of-new [] best g h fits = elim h [ ]
  best_of-new (_ ∷ gs) best g here fits = best_of-old gs _ _ (better-new best g fits)
  best_of-new (_ ∷ gs) best g (there x h) fits = best_of-new gs _ g h fits

  -- What is found is eligible, and one of the groups.
  module _ (P : List Candidate → Type 0) where
    abbrev Fits : Option (List Candidate) → Type 0
    Fits best = (g : List Candidate) → best ≡ some g → (is_eligible required g ≡ true) × P g

    new :
        (g : List Candidate)
        → P g
        → is_eligible required g ≡ true
        → (r : List Candidate) → g ≡ r
        → (is_eligible required r ≡ true) × P r
    new g p fits r same = subst (λ z. (is_eligible required z ≡ true) × P z) same (fits, p)

    better-Fits :
        (best : Option (List Candidate)) (g : List Candidate)
        → Fits best
        → P g
        → Fits (better required max_wip best g)
    unfolding better
    better-Fits best g h p r found = elim (Bool-cases (is_eligible required g)) [
      | inr out ↦ h r (rw out at found)
      | inl fits ↦ elim (Option-cases best) [
        | inl none_yet ↦ new g p fits r (cc (rw (fits, none_yet) at found))
        | inr (old, there_was) ↦
            elim (Bool-cases (key_lt (key_of max_wip g) (key_of max_wip old))) [
              | inl less ↦ new g p fits r (cc (rw (fits, there_was, less) at found))
              | inr more ↦ h r (there_was ∙ rw (fits, there_was, more) at found)
            ]
      ]
    ]

    pub best_of-Fits :
        (gs : List (List Candidate)) (best : Option (List Candidate))
        → Every P gs
        → Fits best
        → Fits (best_of required max_wip best gs)
    unfolding best_of
    best_of-Fits [] best every_none h = h
    best_of-Fits (g ∷ gs) best (every_one _ p later) h =
        best_of-Fits gs _ later (better-Fits best g h p)
