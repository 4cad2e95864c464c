-- ===== src/Risk/Tests.antt =====
-- The theorems about risk at concrete inputs.
use graphori.Common.{◌≤◌, [], ◌∷◌, true, false, some, ◌≡◌, ◌↔◌, refl, arith}
use graphori.Common.Int.{pos}
use graphori.Risk.Input.{RiskInput, level, depth, critical, critical_mode, fast_mode}
use graphori.Risk.Compile.{compile_risk}
use graphori.Risk.Laws.{
  is_hard, compile_risk-critical, IsHarmless, compile_risk-fast, IsBelow, compile_risk-monotone,
}

abbrev harmless : RiskInput
harmless = record {
  risk_level = pos 0;
  uncertainty = pos 0;
  scope = pos 1;
  synthesis = pos 0;
  parallelism = pos 0;
  tags = [];
  usage_status = " Known";
  budget_ok = true;
  external_effect = some false;
  local_only = some true;
  reversible = some true;
}

abbrev tagged : RiskInput
tagged = record harmless { tags = "Personal_Data" ∷ []; scope = pos 2 }

harmless_is_fast : (compile_risk harmless).mode ≡ fast_mode
unfolding compile_risk
harmless_is_fast = refl

tagged_is_critical : (compile_risk tagged).risk ≡ critical
unfolding compile_risk
tagged_is_critical = refl

compile_risk-critical_example :
    ((compile_risk tagged).mode ≡ critical_mode ↔ is_hard tagged ≡ true)
    × ((compile_risk tagged).risk ≡ critical ↔ is_hard tagged ≡ true)
compile_risk-critical_example = compile_risk-critical tagged

compile_risk-fast_example :
    ((compile_risk harmless).mode ≡ fast_mode → IsHarmless harmless)
    × (IsHarmless harmless → (compile_risk harmless).mode ≡ fast_mode)
compile_risk-fast_example = compile_risk-fast harmless

below : IsBelow harmless tagged
below = record {
  risk_level = omega arith;
  uncertainty = omega arith;
  scope = omega arith;
  synthesis = omega arith;
  parallelism = omega arith;
  tags = λ h. cc h;
  usage_status = λ h. h;
  budget_ok = λ h. h;
  effect = λ h. h;
  no_effect = λ h. h;
  local_only = λ h. h;
  reversible = λ h. h;
}

compile_risk-monotone_example :
    (level (compile_risk harmless).risk ≤ level (compile_risk tagged).risk)
    × (depth (compile_risk harmless).mode ≤ depth (compile_risk tagged).mode)
compile_risk-monotone_example = compile_risk-monotone harmless tagged below
