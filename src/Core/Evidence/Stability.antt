-- ===== src/Core/Evidence/Stability.antt =====
-- packages/core/src/evidence.ts, packages/core/src/quality.ts: demotion against graduation.
use ai_email_support_agent.Base.{
  ◌+◌, ◌*◌, ◌≤◌, ◌<◌, true, false, none, some, ◌≡◌, ◌≢◌, ◌↔◌, ◌⊎◌, arith,
}
use ai_email_support_agent.Core.Evidence.{
  DemotionSignals, edit_rate, GraduationSignals, QualityTier, standard, limited, calibrated,
  evaluate_demotion, evaluate_graduation, graduation_rules_for,
}

-- The category is demoted exactly when one of the four rules holds.
pub evaluate_demotion-none_iff :
    (s : DemotionSignals)
    → (evaluate_demotion s ≡ none) ↔ (
        (s.rejections_in_window < 2)
        × (s.flags_in_window < 2)
        × (s.held_then_changed ≡ false)
        × ((s.decisions.unchanged + s.decisions.edited < 8)
            ⊎ (s.decisions.edited * 10 ≤ 3 * (s.decisions.unchanged + s.decisions.edited))))
unfolding evaluate_demotion
evaluate_demotion-none_iff s = ground arith

-- Under the rules of any tier, a record of decisions that graduates a category cannot, on the same
-- decisions, demote it for its edit rate.
pub graduation-ne-edit_rate :
    (g : GraduationSignals) (s : DemotionSignals) (tier : QualityTier)
    → s.decisions.unchanged ≡ g.unchanged
    → s.decisions.edited ≡ g.edited
    → evaluate_graduation g (graduation_rules_for tier) ≡ true
    → evaluate_demotion s ≢ some edit_rate
unfolding evaluate_graduation evaluate_demotion graduation_rules_for
graduation-ne-edit_rate g s standard p q h = ground arith
graduation-ne-edit_rate g s limited p q h = ground arith
graduation-ne-edit_rate g s calibrated p q h = ground arith

-- A `standard` model that earns graduation would have earned it as a calibrated one, so the tier
-- only raises the bar; and it has at least 36 unchanged decisions.
pub graduation_standard_harder :
    (g : GraduationSignals)
    → evaluate_graduation g (graduation_rules_for standard) ≡ true
    → (evaluate_graduation g (graduation_rules_for calibrated) ≡ true) × (36 ≤ g.unchanged)
unfolding evaluate_graduation graduation_rules_for
graduation_standard_harder g h = ground arith
