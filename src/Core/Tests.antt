-- ===== src/Core/Tests.antt =====
-- packages/core/src: runs of the decision functions on concrete inputs, and the theorems applied to them.
use ai_email_support_agent.Base.{
  take, drop, ℕ, ◌+◌, ◌≤◌, true, false, none, some, List, [], ◌∷◌, ltb, ◌≡◌, ◌≢◌, ◌↔◌, refl, arith,
  length,
}
use ai_email_support_agent.Core.Autonomy.{
  DecisionInput, Outcome, CategoryMode, DecisionAction, DecisionReason, decide, decide_auto, below,
  loud,
}
use ai_email_support_agent.Core.Autonomy.Send.{Cleared, Earned, decide-send_iff}
use ai_email_support_agent.Core.Transitions.{DraftStatus, includes, draft_eq, draft_can}
use ai_email_support_agent.Core.Transitions.Trails.{sent_needs_approval}
use ai_email_support_agent.Core.Evidence.{
  DemotionSignals, GraduationSignals, evaluate_demotion, evaluate_graduation, graduation_rules_for,
  DemotionReason, QualityTier,
}
use ai_email_support_agent.Core.Evidence.Stability.{graduation-ne-edit_rate}
use ai_email_support_agent.Core.Billing.{
  BillingRow, BillingStatus, PlanId, OverageMode, trial_ends_at_for, is_handled_in_period,
  handled_period_stamp,
}
use ai_email_support_agent.Core.Billing.Stamps.{is_handled-date_iff}

-- A run that passes every blocker.
abbrev clean : DecisionInput ℕ
clean = record {
  platform_kill_switch = false;
  workspace_kill_switch = false;
  agent_enabled = true;
  agent_active = true;
  subscription_active = true;
  tripwire = false;
  outcome = Outcome.reply;
  owner_feedback_pending = false;
  guardrail = record { ok = true; warning_count = 0 };
  dmarc_pass = some true;
  category_mode = CategoryMode.auto;
  is_redraft = false;
  memory_conflict = false;
  unresolved_questions = false;
  thread_too_long = false;
  human_decision_count = 12;
  evidence = some 92;
  threshold = some 85;
  has_attachments = false;
  allowance_exhausted = false;
  auto_send_cap_reached = false;
  mailbox_healthy = true;
}

clean_is_sent : decide ltb clean ≡ loud DecisionAction.send DecisionReason.ok
unfolding decide decide_auto below
clean_is_sent = refl

decide-send_iff_example :
    (decide ltb clean ≡ loud DecisionAction.send DecisionReason.ok)
    ↔ (Cleared ltb clean × Earned ltb clean)
decide-send_iff_example = decide-send_iff ltb clean

abbrev off_and_conflicting : DecisionInput ℕ
off_and_conflicting = record clean { category_mode = CategoryMode.off; memory_conflict = true }

abbrev path_to_sent : List DraftStatus
path_to_sent = DraftStatus.approved ∷ DraftStatus.sending ∷ DraftStatus.sent ∷ []

sent_needs_approval_example : includes draft_eq path_to_sent DraftStatus.approved ≡ true
unfolding draft_can
sent_needs_approval_example =
    sent_needs_approval DraftStatus.pending path_to_sent refl (refl, (refl, (refl, refl)))

abbrev no_statuses : List DraftStatus
no_statuses = []

abbrev edited_often : DemotionSignals
edited_often = record {
  rejections_in_window = 0;
  flags_in_window = 1;
  held_then_changed = false;
  decisions = record { unchanged = 5; edited = 4 };
}

edited_often_is_demoted : evaluate_demotion edited_often ≡ some DemotionReason.edit_rate
unfolding evaluate_demotion
edited_often_is_demoted = refl

abbrev graduate : GraduationSignals
graduate = record { unchanged = 40; edited = 2; rejected = 0; days_since_last_rejection = none }

abbrev graduate_signals : DemotionSignals
graduate_signals = record {
  rejections_in_window = 0;
  flags_in_window = 0;
  held_then_changed = false;
  decisions = record { unchanged = 40; edited = 2 };
}

graduation-ne-edit_rate_example : evaluate_demotion graduate_signals ≢ some DemotionReason.edit_rate
unfolding evaluate_graduation graduation_rules_for
graduation-ne-edit_rate_example =
    graduation-ne-edit_rate graduate graduate_signals QualityTier.standard refl refl refl

-- A text without white space around it is its own `trim`.
abbrev untrimmed : List ℕ → List ℕ
untrimmed t = t

abbrev reason_text : List ℕ
reason_text = 98 ∷ 97 ∷ 100 ∷ []

abbrev trial_row : BillingRow
trial_row = record {
  plan = PlanId.trial;
  status = BillingStatus.trialing;
  trial_ends_at = some (trial_ends_at_for 1000);
  current_period_start = none;
  current_period_end = none;
  domain_quantity = 1;
  included_conversations_per_domain = 300;
  overage_mode = OverageMode.blocked;
}

-- A clock whose ISO text has the date of a day of September 2026, and the time.
abbrev day_text : ℕ → List ℕ
day_text d = b'2' ∷ b'0' ∷ b'2' ∷ b'6' ∷ b'-' ∷ b'0' ∷ b'9' ∷ b'-' ∷ b'0' ∷ (b'0' + d) ∷ b'T' ∷ []

day_text_long : (d : ℕ) → 10 ≤ length (day_text d)
day_text_long d = omega arith

is_handled-date_iff_example :
    ((is_handled_in_period day_text (some (handled_period_stamp day_text 1)) 1 ≡ true)
      ↔ (take 10 (day_text 1) ≡ take 10 (day_text 1)))
    × ((is_handled_in_period day_text (some (take 7 (day_text 1))) 1 ≡ true) ↔ (
        (take 7 (day_text 1) ≡ take 7 (day_text 1))
        × (take 3 (drop 7 (day_text 1)) ≡ b'-' ∷ b'0' ∷ b'1' ∷ [])))
is_handled-date_iff_example = is_handled-date_iff day_text day_text_long 1 1
