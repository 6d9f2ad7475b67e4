-- ===== src/Worker/Tests.antt =====
-- apps/worker/src/drafting: runs of the claim protocol and of the gate on concrete tables.
use ai_email_support_agent.Base.{
  ℕ, suc, ◌≤◌, true, false, none, some, [], ◌∷◌, ◌≡◌, refl, inr, arith,
}
use ai_email_support_agent.Core.Billing.{BillingState, PlanId}
use ai_email_support_agent.Core.Settings.{
  Value, resolve_setting, daily_draft_cap, plan_setting_defaults, amount, settings_catalog, plans,
}
use ai_email_support_agent.Core.Transitions.{TicketStatus}
use ai_email_support_agent.Db.Tables.{Ticket, Tables, RunKind, find_ticket}
use ai_email_support_agent.Db.Metering.{Meter, sum_meter}
use ai_email_support_agent.Worker.Claim.{
  claimed, refused, watermark, claim_ticket, claim_locked, unwind_claim_stamp, record_failure,
  retry_failure,
}
use ai_email_support_agent.Worker.Claim.Cases.{claim_of}
use ai_email_support_agent.Worker.Claim.Mutex.{
  claim_ticket_excludes, unwind_claim_stamp-claim_ticket,
}
use ai_email_support_agent.Worker.Claim.Failures.{
  live, NoStrand, claim_ticket-NoStrand, record_failure-NoStrand, record_failure-retry,
}
use ai_email_support_agent.Worker.Gate.{
  GateParams, Ledger, gate_and_record_run, record_run, count, is_live, meter_value, utc_day,
  ticket_cap, trial_total_of, gate_org, gate_trial, draft_runs_for_ticket_today,
}
use ai_email_support_agent.Worker.Gate.Runs.{
  gated, done, followed, Capped, Steps-Capped, gate_proceed-bounds,
}

-- The number of the UTC day.
abbrev day_of : ℕ → ℕ
day_of now = utc_day now

abbrev waiting : ℕ → Ticket
waiting failures = record {
  id = 5;
  connection_id = 1;
  provider_thread_id = 70;
  agent_id = some 3;
  customer_email = none;
  subject = none;
  status = TicketStatus.triaged;
  needs_owner_reason = none;
  spam_flagged = false;
  is_automated = none;
  has_attachments = false;
  inbound_count = 1;
  last_inbound_at = some 1000;
  triage_failure_count = 0;
  last_agent_run_at = none;
  last_agent_prompted_at = none;
  last_agent_finished_at = none;
  agent_failure_count = failures;
  owner_redraft_feedback = none;
  redraft_count = 0;
  escalation_notified_at = none;
  ai_handled_month = none;
  created_at = 900;
}

abbrev tables : ℕ → Tables
tables failures = record {
  tickets = waiting failures ∷ [];
  notifications = [];
  audits = [];
  next_id = 40;
}

claim_ticket_excludes_example :
    claim_ticket day_of 5 60000 (claim_ticket day_of 5 2000 (tables 0)).1
    ≡ (refused watermark, (claim_ticket day_of 5 2000 (tables 0)).1)
unfolding claim_ticket claim_locked find_ticket
claim_ticket_excludes_example =
    claim_ticket_excludes day_of 5 2000 60000 (tables 0) (claim_of false (waiting 0) 2000) refl refl
      (omega arith)

unwind_claim_stamp-claim_ticket_example :
    unwind_claim_stamp 5 2000 none (claim_ticket day_of 5 2000 (tables 0)).1 ≡ (true, tables 0)
unfolding claim_ticket claim_locked find_ticket
unwind_claim_stamp-claim_ticket_example =
    unwind_claim_stamp-claim_ticket day_of 5 2000 (tables 0) (claim_of false (waiting 0) 2000) refl
      refl

claim_ticket-NoStrand_example : NoStrand (claim_ticket day_of 5 2000 (tables 1)).1
unfolding live
claim_ticket-NoStrand_example = claim_ticket-NoStrand day_of 5 2000 (tables 1) (refl, tt)

record_failure-NoStrand_example : NoStrand (record_failure day_of 5 3000 (some 8) (tables 1)).1
unfolding live
record_failure-NoStrand_example =
    record_failure-NoStrand day_of 5 3000 (some 8) (tables 1) (refl, tt)

record_failure-retry_example :
    (claim_ticket day_of 5 3001 (record_failure day_of 5 3000 none (tables 0)).1).0
    ≡ claimed (claim_of false (retry_failure 1 (waiting 0)) 3001)
unfolding find_ticket
record_failure-retry_example =
    record_failure-retry day_of 5 3000 3001 none (tables 0) (waiting 0) refl refl refl

abbrev params : ℕ → GateParams
params now = record {
  ticket_id = some 5;
  agent_id = some 3;
  kind = RunKind.draft;
  settings = record {
    org = λ _. none;
    plan = plan_setting_defaults PlanId.trial;
    state = BillingState.trialing;
    agent_enabled_at = some 0;
  };
  now = now;
}

abbrev empty_ledger : Ledger
empty_ledger = record { runs = []; counters = []; next_run = 1 }

first_run :
    gate_and_record_run (params 90000000) empty_ledger
    ≡ inr (record_run (params 90000000) empty_ledger)
unfolding gate_and_record_run ticket_cap draft_runs_for_ticket_today gate_org gate_trial
    resolve_setting plan_setting_defaults settings_catalog plans count meter_value trial_total_of
    sum_meter
first_run = refl

Steps-Capped_example : Capped (record_run (params 90000000) empty_ledger).1 5 1
unfolding count
Steps-Capped_example =
    Steps-Capped empty_ledger (record_run (params 90000000) empty_ledger).1 5 1
      (followed empty_ledger (record_run (params 90000000) empty_ledger).1
        (record_run (params 90000000) empty_ledger).1
        (gated (params 90000000) empty_ledger (record_run (params 90000000) empty_ledger).1
          (record_run (params 90000000) empty_ledger).0 first_run)
        (done (record_run (params 90000000) empty_ledger).1))
      (omega arith)

gate_proceed-bounds_example :
    let s' = (record_run (params 90000000) empty_ledger).1 in
    (count (is_live 90000000) s'.runs ≤ 2)
    × (meter_value 1 Meter.draft_runs s'.counters ≡ suc (meter_value 1 Meter.draft_runs []))
    × (v : Value) × (resolve_setting daily_draft_cap
          (λ _. none)
          (plan_setting_defaults PlanId.trial)
        ≡ inr v)
    × (meter_value 1 Meter.draft_runs s'.counters ≤ amount v)
unfolding record_run
gate_proceed-bounds_example =
    gate_proceed-bounds (params 90000000) empty_ledger (record_run (params 90000000) empty_ledger).1
      1 first_run
