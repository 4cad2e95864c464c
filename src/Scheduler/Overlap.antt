-- ===== src/Scheduler/Overlap.antt =====
-- Laws of path overlap and of scope conflicts.
use Prim.Native.String
use mathlib.Core.Path.{fun_ext}
use text.Mathlib.TextLemmas.{cons-append}
use graphori.Common.{
  String, List, [], ◌∷◌, Bool, false, ◌||◌, any, ◌≡◌, refl, sym, ap, ◌∙◌, arith, eq_iff,
}
use graphori.Plan.Node.{NodeSpec}
use graphori.Scheduler.Scope.{rstrip_slash, overlap, scopes_overlap, scope_conflict}

pub overlap_comm : (p q : String) → overlap p q ≡ overlap q p
unfolding overlap
overlap_comm p q =
    ground
      (arith, eq_iff (rstrip_slash p) (rstrip_slash q), eq_iff (rstrip_slash q) (rstrip_slash p))

any-nothing {ℓ} : {A : Type ℓ} (zs : List A) → any zs (λ z. false) ≡ false
any-nothing [] = refl
any-nothing (z ∷ zs) = any-nothing zs

any-or {ℓ} :
    {A : Type ℓ} (p q : A → Bool) (zs : List A) → any zs (λ z. p z || q z) ≡ (any zs p || any zs q)
any-or p q [] = refl
any-or p q (z ∷ zs) = ground (arith, any-or p q zs)

any-swap {ℓ} :
    {A B : Type ℓ} (f : A → B → Bool) (xs : List A) (ys : List B)
    → any xs (λ x. any ys (λ y. f x y)) ≡ any ys (λ y. any xs (λ x. f x y))
any-swap f [] ys = sym (any-nothing ys)
any-swap f (x ∷ xs) ys = rw (any-swap f xs ys) (sym (any-or (f x) (λ y. any xs (λ z. f z y)) ys))

scopes_overlap_comm : (xs ys : List String) → scopes_overlap xs ys ≡ scopes_overlap ys xs
scopes_overlap_comm xs ys =
    any-swap overlap xs ys ∙ ap (any ys) (fun_ext λ y. ap (any xs) (fun_ext λ x. overlap_comm x y))

-- Whether two nodes conflict does not depend on which of them is asked first.
pub scope_conflict_comm : (m n : NodeSpec) → scope_conflict m n ≡ scope_conflict n m
unfolding scope_conflict
scope_conflict_comm m n = ground (
  arith,
  scopes_overlap_comm m.write_scope n.write_scope,
  scopes_overlap_comm m.write_scope n.read_scope,
  scopes_overlap_comm m.read_scope n.write_scope,
)

rstrip_slash-append : (p : String) → rstrip_slash (String.◌++◌ p "/") ≡ rstrip_slash p
unfolding rstrip_slash
rstrip_slash-append String.[] = refl
rstrip_slash-append (String.◌∷◌ c s) = rw cons-append (rw (rstrip_slash-append s))

-- A trailing slash does not change what a path overlaps.
pub overlap_slash : (p q : String) → overlap (String.◌++◌ p "/") q ≡ overlap p q
unfolding overlap
overlap_slash p q = rw rstrip_slash-append
