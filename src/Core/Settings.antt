-- ===== src/Core/Settings.antt =====
-- packages/core/src/settings-catalog.ts and packages/core/src/plans.ts: a setting's value is the
-- workspace's own row, or its plan's default, or the code's.
pub mod Resolve
use ai_email_support_agent.Base.{
  ℕ, ◌*◌, Bool, true, false, Option, none, some, ◌⊎◌, inl, inr, if◌then◌else◌, ◌==◌,
}
use ai_email_support_agent.Core.Billing.{PlanId, trial, standard}

pub data SettingKey : Type 0 where
  digest_minutes daily_draft_cap daily_auto_send_cap daily_llm_usd_cap triage_daily_cap : SettingKey
  sandbox_daily_cap max_connections spam_shortcircuit_always digest_email digest_email_hour :
      SettingKey
  max_sources max_crawl_pages daily_embed_tokens_cap push_auto_sends daily_suggest_cap : SettingKey

-- What `typeof` tells apart; `Value.other` is any value that is no number, Boolean or text.
pub data Kind : Type 0 where
  number boolean string object : Kind

pub data Value : Type 0 where
  num : ℕ → Value
  bool : Bool → Value
  text : Value
  other : Value

abbrev pub kind_of : Value → Kind
kind_of (num n) = number
kind_of (bool b) = boolean
kind_of text = string
kind_of other = object

abbrev kind_place : Kind → ℕ
kind_place number = 0
kind_place boolean = 1
kind_place string = 2
kind_place object = 3

abbrev pub kind_eq : Kind → Kind → Bool
kind_eq a b = kind_place a == kind_place b

pub record Entry : Type 0 where
  pub kind : Kind
  pub default : Value

abbrev numeric : ℕ → Entry
numeric n = record { kind = number; default = num n }

abbrev logical : Bool → Entry
logical b = record { kind = boolean; default = bool b }

unfoldable pub settings_catalog : SettingKey → Entry
settings_catalog digest_minutes = numeric 15
settings_catalog daily_draft_cap = numeric 2000
settings_catalog daily_auto_send_cap = numeric 100
settings_catalog daily_llm_usd_cap = numeric 60
settings_catalog triage_daily_cap = numeric 6000
settings_catalog sandbox_daily_cap = numeric 100
settings_catalog max_connections = numeric 5
settings_catalog spam_shortcircuit_always = logical false
settings_catalog digest_email = logical true
settings_catalog digest_email_hour = numeric 8
settings_catalog max_sources = numeric 100
settings_catalog max_crawl_pages = numeric 200
settings_catalog daily_embed_tokens_cap = numeric 5000000
settings_catalog push_auto_sends = logical false
settings_catalog daily_suggest_cap = numeric 50

pub record PlanLimits : Type 0 where
  pub daily_draft_cap : ℕ
  pub daily_llm_usd_cap : ℕ
  pub sandbox_daily_cap : ℕ
  pub max_connections : ℕ
  pub max_agents_per_domain : ℕ
  pub included_conversations_per_domain : ℕ
  pub trial_days : ℕ
  pub max_sources : ℕ
  pub max_crawl_pages : ℕ
  pub daily_embed_tokens_cap : ℕ
  pub llm_usd_budget : Option ℕ

unfoldable pub plans : PlanId → PlanLimits
plans trial = record {
  daily_draft_cap = 50;
  daily_llm_usd_cap = 3;
  sandbox_daily_cap = 10;
  max_connections = 1;
  max_agents_per_domain = 3;
  included_conversations_per_domain = 50;
  trial_days = 14;
  max_sources = 10;
  max_crawl_pages = 20;
  daily_embed_tokens_cap = 200000;
  llm_usd_budget = some 10;
}
plans standard = record {
  daily_draft_cap = 2000;
  daily_llm_usd_cap = 60;
  sandbox_daily_cap = 100;
  max_connections = 5;
  max_agents_per_domain = 3;
  included_conversations_per_domain = 300;
  trial_days = 0;
  max_sources = 100;
  max_crawl_pages = 200;
  daily_embed_tokens_cap = 5000000;
  llm_usd_budget = none;
}

-- A `Partial<Record<SettingKey, …>>`; a key that is missing, null or undefined is `none`.
abbrev pub Source : Type 0
Source = SettingKey → Option Value

unfoldable pub plan_setting_defaults : PlanId → Source
unfolding plans
plan_setting_defaults plan daily_draft_cap = some (num (plans plan).daily_draft_cap)
plan_setting_defaults plan daily_llm_usd_cap = some (num (plans plan).daily_llm_usd_cap)
plan_setting_defaults plan triage_daily_cap = some (num ((plans plan).daily_draft_cap * 3))
plan_setting_defaults plan sandbox_daily_cap = some (num (plans plan).sandbox_daily_cap)
plan_setting_defaults plan max_connections = some (num (plans plan).max_connections)
plan_setting_defaults plan max_sources = some (num (plans plan).max_sources)
plan_setting_defaults plan max_crawl_pages = some (num (plans plan).max_crawl_pages)
plan_setting_defaults plan daily_embed_tokens_cap = some (num (plans plan).daily_embed_tokens_cap)
plan_setting_defaults plan _ = none

-- A number setting's amount.
abbrev pub amount : Value → ℕ
amount (num n) = n
amount _ = 0

-- `a ?? b`
abbrev pub or_else : Option Value → Value → Value
or_else (some v) w = v
or_else none w = w

-- The `TypeError`: what the catalog expects, and what was found.
pub record WrongKind : Type 0 where
  pub expected : Kind
  pub got : Kind

unfoldable pub resolve_setting : SettingKey → Source → Source → WrongKind ⊎ Value
unfolding settings_catalog
resolve_setting key org plan =
    let entry = settings_catalog key in
    let candidate = or_else (org key) (or_else (plan key) entry.default) in
    if kind_eq (kind_of candidate) entry.kind
    then inr candidate
    else inl (record { expected = entry.kind; got = kind_of candidate })
