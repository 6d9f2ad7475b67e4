-- ===== src/Core/Settings/Resolve.antt =====
-- packages/core/src/settings-catalog.ts, packages/core/src/plans.ts: what a setting resolves to.
use ai_email_support_agent.Base.{none, ◌≡◌, refl, inr, arith, ◌≤◌}
use ai_email_support_agent.Core.Billing.{trial, standard}
use ai_email_support_agent.Core.Settings.{
  SettingKey, Value, amount, plan_setting_defaults, resolve_setting,
}

-- With no rows of its own a workspace never meets the kind error, on either plan and for any key,
-- and the trial's amount is never larger than the standard one.
pub plan_defaults_resolve :
    (key : SettingKey)
    → (a : Value) × (b : Value) × (resolve_setting key (λ _. none) (plan_setting_defaults trial)
        ≡ inr a)
      × (resolve_setting key (λ _. none) (plan_setting_defaults standard) ≡ inr b)
      × (amount a ≤ amount b)
unfolding resolve_setting plan_setting_defaults
plan_defaults_resolve SettingKey.digest_minutes = (_, _, refl, refl, omega arith)
plan_defaults_resolve _ = (_, _, refl, refl, omega arith)
