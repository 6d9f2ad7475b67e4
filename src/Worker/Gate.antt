-- ===== src/Worker/Gate.antt =====
-- apps/worker/src/drafting/caps.ts and apps/worker/src/drafting/runs.ts: the gate of a draft run and
-- the life of its run row. The gate holds the workspace's advisory lock for its whole transaction, so
-- it is one step. A cap in USD is a whole number, and `Math.round(usd * 1e6)` its product.
pub mod Caps
pub mod Runs
use ai_email_support_agent.Base.{
  ℕ, suc, ◌+◌, ◌-◌, ◌*◌, ◌/◌, ◌%◌, Bool, true, false, Option, none, some, List, [], ◌∷◌, ◌++◌, leb,
  ltb, ◌==◌, ◌&&◌, ◌⊎◌, inl, inr, if◌then◌else◌,
}
use ai_email_support_agent.Core.Billing.{BillingState, PlanId, trial}
use ai_email_support_agent.Core.Redraft.{invariants}
use ai_email_support_agent.Core.Settings.{
  SettingKey, Value, Source, WrongKind, resolve_setting, amount, daily_draft_cap, daily_llm_usd_cap,
  plans,
}
use ai_email_support_agent.Core.Transitions.{AgentRunStatus, agent_run_eq, running}
use ai_email_support_agent.Db.Metering.{
  Counter, bump_meter, sum_meter, at_key, Meter, draft_runs, llm_cost_micros,
}
use ai_email_support_agent.Db.Tables.{AgentRun, RunKind}

abbrev pub per_org_draft_concurrency : ℕ
per_org_draft_concurrency = 2

abbrev pub max_runs : ℕ
max_runs = invariants.agent_max_runs_per_ticket_per_day

abbrev pub day_ms : ℕ
day_ms = 86400000

abbrev pub utc_day : ℕ → ℕ
utc_day now = now / day_ms

abbrev pub utc_midnight : ℕ → ℕ
utc_midnight now = utc_day now * day_ms

-- On a whole number of dollars `Math.round` changes nothing.
abbrev pub usd_cap_to_micros : ℕ → ℕ
usd_cap_to_micros usd = usd * 1000000

pub data SpendCapScope : Type 0 where
  daily trial_total : SpendCapScope

pub data GateOutcome : Type 0 where
  proceed : ℕ → GateOutcome
  ticket_capped : ℕ → GateOutcome
  org_busy org_draft_capped : GateOutcome
  org_spend_capped : SpendCapScope → ℕ → GateOutcome

pub record Ledger : Type 0 where
  pub runs : List AgentRun
  pub counters : List Counter
  pub next_run : ℕ

pub record SettingSources : Type 0 where
  pub org : Source
  pub plan : Source
  pub state : BillingState
  pub agent_enabled_at : Option ℕ

pub record GateParams : Type 0 where
  pub ticket_id : Option ℕ
  pub agent_id : Option ℕ
  pub kind : RunKind
  pub settings : SettingSources
  pub now : ℕ

abbrev pub trial_budget_applies : BillingState → Bool
trial_budget_applies BillingState.trialing = true
trial_budget_applies _ = false

abbrev pub trial_budget_from_day : Option ℕ → ℕ
trial_budget_from_day none = 0
trial_budget_from_day (some at) = utc_day at

abbrev pub is_draft : RunKind → Bool
is_draft RunKind.draft = true
is_draft _ = false

abbrev pub for_ticket : Option ℕ → ℕ → Bool
for_ticket none k = false
for_ticket (some t) k = t == k

-- `SELECT count(*)`
unfoldable pub count : (AgentRun → Bool) → List AgentRun → ℕ
count test [] = 0
count test (r ∷ rs) = let rest = count test rs in if test r then suc rest else rest

abbrev pub draft_of_ticket_since : ℕ → ℕ → AgentRun → Bool
draft_of_ticket_since k midnight r =
    is_draft r.kind && for_ticket r.ticket_id k && leb midnight r.started_at

unfoldable pub draft_runs_for_ticket_today : ℕ → ℕ → List AgentRun → ℕ
draft_runs_for_ticket_today k midnight rs = count (draft_of_ticket_since k midnight) rs

-- `started_at > now - DRAFT_JOB_EXPIRE_SECONDS`, with the subtraction moved to the other side.
unfoldable pub is_live : ℕ → AgentRun → Bool
is_live now r =
    is_draft r.kind
    && agent_run_eq r.status running
    && ltb now (r.started_at + invariants.draft_job_expire_seconds * 1000)

unfoldable pub meter_value : ℕ → Meter → List Counter → ℕ
meter_value day meter [] = 0
meter_value day meter (c ∷ cs) =
    let rest = meter_value day meter cs in if at_key day meter c then c.value else rest

abbrev pub runs_today : GateParams → Ledger → ℕ → ℕ
runs_today p s k = draft_runs_for_ticket_today k (utc_midnight p.now) s.runs

-- A run with no ticket (a sandbox probe) has no cap of its own.
unfoldable pub ticket_cap : Option ℕ → GateParams → Ledger → Option GateOutcome
ticket_cap none p s = none
ticket_cap (some k) p s =
    if leb max_runs (runs_today p s k) then some (ticket_capped (runs_today p s k)) else none

unfoldable pub trial_total_of : GateParams → Ledger → ℕ
trial_total_of p s =
    sum_meter llm_cost_micros (trial_budget_from_day p.settings.agent_enabled_at) none s.counters

-- PLANS.trial.llmUsdBudget
abbrev pub trial_budget : ℕ
trial_budget = usd_cap_to_micros 10

-- Step 5: the run row and the counter, in the same transaction as the counts that allowed them.
unfoldable pub record_run : GateParams → Ledger → GateOutcome × Ledger
record_run p s = (
  proceed s.next_run,
  record {
    runs =
        s.runs
        ++ record {
          id = s.next_run;
          kind = p.kind;
          ticket_id = p.ticket_id;
          agent_id = p.agent_id;
          status = running;
          started_at = p.now;
        }
          ∷ [];
    counters = bump_meter (utc_day p.now) draft_runs 1 s.counters;
    next_run = suc s.next_run;
  },
)

-- The `TypeError` of `resolveSetting` leaves the transaction, and the ledger, as they were.
abbrev pub Gated : Type 0
Gated = WrongKind ⊎ (GateOutcome × Ledger)

abbrev pub with_cap : WrongKind ⊎ Value → (ℕ → Gated) → Gated
with_cap (inl e) next = inl e
with_cap (inr v) next = next (amount v)

-- Step 4b and step 5.
unfoldable pub gate_trial : GateParams → Ledger → GateOutcome × Ledger
gate_trial p s =
    let total = trial_total_of p s in
    if trial_budget_applies p.settings.state && leb trial_budget total
    then (org_spend_capped trial_total total, s)
    else record_run p s

-- Steps 2 to 5.
unfoldable pub gate_org : GateParams → Ledger → Gated
gate_org p s =
    if leb per_org_draft_concurrency (count (is_live p.now) s.runs)
    then inr (org_busy, s)
    else (with_cap (resolve_setting daily_draft_cap p.settings.org p.settings.plan) (λ drafts.
        if leb drafts (meter_value (utc_day p.now) draft_runs s.counters)
        then inr (org_draft_capped, s)
        else with_cap (resolve_setting daily_llm_usd_cap p.settings.org p.settings.plan) (λ usd.
          let cost = meter_value (utc_day p.now) llm_cost_micros s.counters in
          if leb (usd_cap_to_micros usd) cost
          then inr (org_spend_capped daily cost, s)
          else inr (gate_trial p s))))

gate_ticket : Option GateOutcome → GateParams → Ledger → Gated
gate_ticket (some refusal) p s = inr (refusal, s)
gate_ticket none p s = gate_org p s

unfoldable pub gate_and_record_run : GateParams → Ledger → Gated
unfolding gate_ticket
gate_and_record_run p s = gate_ticket (ticket_cap p.ticket_id p s) p s

pub record UnlockedCaps : Type 0 where
  pub ticket_runs_today : ℕ
  pub org_cost_micros_today : ℕ
  pub org_drafts_today : ℕ
  pub org_trial_cost_micros : ℕ

unfoldable pub read_caps_unlocked : ℕ → SettingSources → ℕ → Ledger → UnlockedCaps
read_caps_unlocked k settings now s = record {
  ticket_runs_today = draft_runs_for_ticket_today k (utc_midnight now) s.runs;
  org_cost_micros_today = meter_value (utc_day now) llm_cost_micros s.counters;
  org_drafts_today = meter_value (utc_day now) draft_runs s.counters;
  org_trial_cost_micros =
      sum_meter llm_cost_micros (trial_budget_from_day settings.agent_enabled_at) none s.counters;
}

-- `UPDATE agent_runs SET status = … WHERE id = … AND status = 'running' RETURNING id`
unfoldable pub settle : ℕ → AgentRunStatus → List AgentRun → List AgentRun × Bool
settle id status [] = ([], false)
settle id status (r ∷ rs) =
    let (rs', hit) = settle id status rs in
    if r.id == id && agent_run_eq r.status running
    then (record r { status = status } ∷ rs, true)
    else (r ∷ rs', hit)

unfoldable pub finish_run : ℕ → AgentRunStatus → Ledger → Bool × Ledger
finish_run id status s = let (rs, hit) = settle id status s.runs in (hit, record s { runs = rs })

-- The backstop sweep: every `running` run started before `older_than` is aborted.
unfoldable pub abort_older : ℕ → List AgentRun → List AgentRun × List ℕ
abort_older older_than [] = ([], [])
abort_older older_than (r ∷ rs) =
    let (rs', ids) = abort_older older_than rs in
    if agent_run_eq r.status running && ltb r.started_at older_than
    then (record r { status = AgentRunStatus.aborted } ∷ rs', r.id ∷ ids)
    else (r ∷ rs', ids)

unfoldable pub mark_stuck_runs : ℕ → Ledger → List ℕ × Ledger
mark_stuck_runs older_than s =
    let (rs, ids) = abort_older older_than s.runs in (ids, record s { runs = rs })
