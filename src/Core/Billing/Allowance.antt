-- ===== src/Core/Billing/Allowance.antt =====
-- packages/core/src/billing.ts: the trial clock, the allowance and the overage.
use ai_email_support_agent.Base.{ℕ, ◌+◌, ◌≤◌, ◌<◌, true, false, none, some, ◌≡◌, ◌↔◌, ◌⊎◌, arith}
use ai_email_support_agent.Core.Billing.{
  standard, BillingStatus, BillingState, automatic, managed, BillingRow, billing_state_of,
  is_billing_active, allowance_of, overage_of, is_allowance_exhausted, trial_ends_at_for,
}

-- Time alone never turns billing back on: a row that is not active at one time is not active later.
pub billing_inactive_stays :
    (row : BillingRow) (now later : ℕ)
    → now ≤ later
    → is_billing_active (billing_state_of row now) ≡ false
    → is_billing_active (billing_state_of row later) ≡ false
unfolding billing_state_of is_billing_active
billing_inactive_stays row now later h k = ground arith

-- A row is active exactly when it is paid for, or is a trial whose clock has not run out.
pub billing_active_iff :
    (row : BillingRow) (now : ℕ)
    → (is_billing_active (billing_state_of row now) ≡ true) ↔ (
        (row.status ≡ BillingStatus.active)
        ⊎ (row.status ≡ BillingStatus.trialing)
          × ((row.trial_ends_at ≡ none) ⊎ ((t : ℕ) × (row.trial_ends_at ≡ some t) × (now < t))))
unfolding billing_state_of is_billing_active
billing_active_iff row now = (λ h. ground arith, λ h. ground arith)

-- The trial that starts when the agent is switched on is active for 14 days and expired from then on.
pub trial_clock :
    (row : BillingRow) (enabled now : ℕ)
    → row.status ≡ BillingStatus.trialing
    → row.trial_ends_at ≡ some (trial_ends_at_for enabled)
    → (billing_state_of row now ≡ BillingState.trialing) × (now < enabled + 1209600000)
      ⊎ (billing_state_of row now ≡ BillingState.trial_expired) × (enabled + 1209600000 ≤ now)
unfolding billing_state_of trial_ends_at_for
trial_clock row enabled now p q = ground arith

-- One more managed conversation, admitted while the allowance is not exhausted, bills overage only
-- on a standard plan in automatic mode.
pub admitted_overage :
    (row : BillingRow) (used : ℕ)
    → is_allowance_exhausted managed row.plan row.overage_mode used (allowance_of row) ≡ false
    → (overage_of (used + 1) (allowance_of row) ≡ 0)
      ⊎ (row.plan ≡ standard) × (row.overage_mode ≡ automatic)
unfolding is_allowance_exhausted overage_of
admitted_overage row used h = ground arith
