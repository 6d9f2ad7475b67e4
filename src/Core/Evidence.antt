-- ===== src/Core/Evidence.antt =====
-- packages/core/src/evidence.ts (demotion and graduation) and packages/core/src/quality.ts.
-- A rate such as 0.3 is a fraction, and `a / b > n / d` is `n * b < a * d`: on counts this is the test
-- that the double-precision division makes, and with no decision at all both say no.
pub mod Stability
use ai_email_support_agent.Base.{
  ℕ, ◌+◌, ◌*◌, Bool, true, false, Option, none, some, ltb, leb, ◌&&◌, if◌then◌else◌,
}

pub data DemotionReason : Type 0 where
  rejections flags hold_then_edit edit_rate model_changed : DemotionReason

pub record Fraction : Type 0 where
  pub num : ℕ
  pub den : ℕ

pub record Decisions : Type 0 where
  pub unchanged : ℕ
  pub edited : ℕ

pub record DemotionSignals : Type 0 where
  pub rejections_in_window : ℕ
  pub flags_in_window : ℕ
  pub held_then_changed : Bool
  pub decisions : Decisions

abbrev pub demotion_rejections : ℕ
demotion_rejections = 2

abbrev pub demotion_flags : ℕ
demotion_flags = 2

abbrev pub edit_rate_min_decisions : ℕ
edit_rate_min_decisions = 8

abbrev pub demotion_edit_rate : Fraction
demotion_edit_rate = record { num = 3; den = 10 }

-- `a / b > rate` and `a / b < rate`.
abbrev pub above : ℕ → ℕ → Fraction → Bool
above a b rate = ltb (rate.num * b) (a * rate.den)

abbrev pub under : ℕ → ℕ → Fraction → Bool
under a b rate = ltb (a * rate.den) (rate.num * b)

unfoldable pub evaluate_demotion : DemotionSignals → Option DemotionReason
evaluate_demotion s =
    if leb demotion_rejections s.rejections_in_window
    then some rejections
    else if leb demotion_flags s.flags_in_window
    then some flags
    else if s.held_then_changed
    then some hold_then_edit
    else (let total = s.decisions.unchanged + s.decisions.edited in
        if leb edit_rate_min_decisions total && above s.decisions.edited total demotion_edit_rate
        then some edit_rate
        else none)

pub record GraduationSignals : Type 0 where
  pub unchanged : ℕ
  pub edited : ℕ
  pub rejected : ℕ
  pub days_since_last_rejection : Option ℕ

pub record GraduationRules : Type 0 where
  pub min_decisions : ℕ
  pub min_unchanged_rate : Fraction
  pub rejection_free_days : ℕ
  pub can_graduate : Bool

-- `days !== null && days < limit`
abbrev pub sooner : Option ℕ → ℕ → Bool
sooner none limit = false
sooner (some days) limit = ltb days limit

unfoldable pub evaluate_graduation : GraduationSignals → GraduationRules → Bool
evaluate_graduation s rules =
    let total = s.unchanged + s.edited + s.rejected in
    if ltb total rules.min_decisions
    then false
    else if under s.unchanged total rules.min_unchanged_rate
    then false
    else if sooner s.days_since_last_rejection rules.rejection_free_days
    then false
    else true

pub data QualityTier : Type 0 where
  calibrated standard limited : QualityTier

-- `GRADUATION_RULES`, with the `canGraduate` flag that `graduationRulesFor` adds.
abbrev pub graduation_rules : GraduationRules
graduation_rules = record {
  min_decisions = 20;
  min_unchanged_rate = record { num = 9; den = 10 };
  rejection_free_days = 14;
  can_graduate = true;
}

unfoldable pub graduation_rules_for : QualityTier → GraduationRules
graduation_rules_for standard = record graduation_rules { min_decisions = 40; can_graduate = true }
graduation_rules_for limited = record graduation_rules { can_graduate = false }
graduation_rules_for calibrated = record graduation_rules { can_graduate = true }
