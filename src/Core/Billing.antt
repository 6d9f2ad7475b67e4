-- ===== src/Core/Billing.antt =====
-- packages/core/src/billing.ts: the billing state, the allowance and the conversation meter's stamps.
-- A `Date` is its epoch milliseconds; the calendar month of a date and its ISO text are what the
-- JavaScript runtime makes of it, so they are parameters.
pub mod Allowance
pub mod Stamps
use ai_email_support_agent.Base.{
  ℕ, ◌+◌, ◌-◌, ◌*◌, max, Bool, true, false, Option, none, some, List, [], ◌∷◌, ltb, leb, ◌==◌, ◌&&◌,
  ◌||◌, if◌then◌else◌, take, drop, length,
}

pub data PlanId : Type 0 where
  trial standard : PlanId

pub data BillingStatus : Type 0 where
  trialing active past_due canceled : BillingStatus

pub data BillingState : Type 0 where
  trialing trial_expired active past_due canceled : BillingState

pub data OverageMode : Type 0 where
  automatic blocked : OverageMode

pub data LlmMode : Type 0 where
  managed byok : LlmMode

pub record BillingRow : Type 0 where
  pub plan : PlanId
  pub status : BillingStatus
  pub trial_ends_at : Option ℕ
  pub current_period_start : Option ℕ
  pub current_period_end : Option ℕ
  pub domain_quantity : ℕ
  pub included_conversations_per_domain : ℕ
  pub overage_mode : OverageMode

abbrev pub trial_included_conversations : ℕ
trial_included_conversations = 50

abbrev pub trial_days : ℕ
trial_days = 14

abbrev pub state_of : BillingStatus → BillingState
state_of BillingStatus.trialing = BillingState.trialing
state_of BillingStatus.active = BillingState.active
state_of BillingStatus.past_due = BillingState.past_due
state_of BillingStatus.canceled = BillingState.canceled

abbrev pub is_trialing : BillingStatus → Bool
is_trialing BillingStatus.trialing = true
is_trialing _ = false

-- `trialEndsAt !== null && trialEndsAt <= now`
abbrev pub reached : Option ℕ → ℕ → Bool
reached none now = false
reached (some end_at) now = leb end_at now

unfoldable pub billing_state_of : BillingRow → ℕ → BillingState
billing_state_of row now =
    if is_trialing row.status && reached row.trial_ends_at now
    then BillingState.trial_expired
    else state_of row.status

unfoldable pub is_billing_active : BillingState → Bool
is_billing_active BillingState.trialing = true
is_billing_active BillingState.active = true
is_billing_active _ = false

abbrev pub is_trial : PlanId → Bool
is_trial trial = true
is_trial standard = false

abbrev pub is_blocked : OverageMode → Bool
is_blocked blocked = true
is_blocked automatic = false

abbrev pub is_managed : LlmMode → Bool
is_managed managed = true
is_managed byok = false

unfoldable pub allowance_of : BillingRow → ℕ
allowance_of row =
    if is_trial row.plan
    then trial_included_conversations
    else row.included_conversations_per_domain * max 1 row.domain_quantity

-- `Math.max(0, used - allowance)`: subtraction on ℕ stops at 0.
unfoldable pub overage_of : ℕ → ℕ → ℕ
overage_of used allowance = used - allowance

unfoldable pub is_allowance_exhausted : LlmMode → PlanId → OverageMode → ℕ → ℕ → Bool
is_allowance_exhausted mode plan overage used allowance =
    is_managed mode && leb allowance used && (is_trial plan || is_blocked overage)

unfoldable pub trial_ends_at_for : ℕ → ℕ
trial_ends_at_for agent_enabled_at = agent_enabled_at + trial_days * 86400000

pub record Period : Type 0 where
  pub start : ℕ
  pub end : ℕ

-- The UTC month that holds a date.
module _ (month_of : ℕ → Period) where
  period_or_month : Option ℕ → Option ℕ → ℕ → Period
  period_or_month (some start) (some end) now = record { start = start; end = end }
  period_or_month _ _ now = month_of now

  pub period_of : BillingRow → ℕ → Period
  unfolding period_or_month
  period_of row now = period_or_month row.current_period_start row.current_period_end now

-- Texts are lists of UTF-16 code units.
abbrev pub text_eq : List ℕ → List ℕ → Bool
text_eq [] [] = true
text_eq (a ∷ s) (b ∷ t) = a == b && text_eq s t
text_eq _ _ = false

-- `text.endsWith(suffix)`
abbrev pub ends_with : List ℕ → List ℕ → Bool
ends_with text suffix =
    leb (length suffix) (length text) && text_eq (drop (length text - length suffix) text) suffix

abbrev pub member : List (List ℕ) → List ℕ → Bool
member [] t = false
member (s ∷ ss) t = text_eq s t || member ss t

-- `to_iso_string` is `Date.prototype.toISOString`.
module _ (to_iso_string : ℕ → List ℕ) where
  pub handled_period_stamp : ℕ → List ℕ
  handled_period_stamp period_start = take 10 (to_iso_string period_start)

  pub handled_period_stamps : ℕ → List (List ℕ)
  unfolding handled_period_stamp
  handled_period_stamps period_start =
      let stamp = handled_period_stamp period_start in
      if ends_with stamp (b'-' ∷ b'0' ∷ b'1' ∷ []) then stamp ∷ take 7 stamp ∷ [] else stamp ∷ []

  pub is_handled_in_period : Option (List ℕ) → ℕ → Bool
  unfolding handled_period_stamps
  is_handled_in_period none period_start = false
  is_handled_in_period (some stored) period_start =
      member (handled_period_stamps period_start) stored
