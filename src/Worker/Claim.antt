-- ===== src/Worker/Claim.antt =====
-- apps/worker/src/drafting/claim.ts: the per-ticket mutex of the drafting job. Each function is one
-- transaction over the tables, under the row lock that it takes. `day_of` is the UTC day of a time.
pub mod Cases
pub mod Mutex
pub mod Failures
use ai_email_support_agent.Base.{
  ℕ, ◌+◌, ◌*◌, Bool, true, false, not, Option, none, some, if◌then◌else◌, ◌==◌, ◌&&◌, ◌||◌, ltb,
  leb,
}
use ai_email_support_agent.Core.Transitions.{TicketStatus, triaged, ticket_eq}
use ai_email_support_agent.Core.Redraft.{Constants, invariants}
use ai_email_support_agent.Db.Tables.{
  NeedsOwnerReason, Ticket, Actor, AuditAction, Tables, find_ticket, update_ticket, always, audit,
}
use ai_email_support_agent.Db.Escalations.{EscalateTicketParams, Escalated, escalate_ticket}

-- STUCK_AFTER_MINUTES, in milliseconds.
abbrev pub stuck_after : ℕ
stuck_after = 20 * 60000

abbrev pub escalate_at : ℕ
escalate_at = invariants.agent_failure_escalate_at

pub data Refusal : Type 0 where
  ticket_missing failure_ceiling watermark : Refusal
  not_triaged : TicketStatus → Refusal
  stuck_escalated : Option ℕ → Refusal

pub record Claim : Type 0 where
  pub stuck_claim : Bool
  pub ticket : Ticket
  pub thread_snapshot_at : Option ℕ
  pub prior_last_agent_run_at : Option ℕ
  pub stamped_last_agent_run_at : ℕ

pub data ClaimResult : Type 0 where
  refused : Refusal → ClaimResult
  claimed : Claim → ClaimResult

abbrev pub is_none : Option ℕ → Bool
is_none none = true
is_none (some _) = false

-- `a !== null && b !== null && a < b`
abbrev pub before : Option ℕ → Option ℕ → Bool
before (some a) (some b) = ltb a b
before _ _ = false

-- `run !== null && run < now - STUCK_AFTER && (finished === null || finished < run)`, with the
-- subtraction moved to the other side.
abbrev pub is_stuck : Option ℕ → Option ℕ → ℕ → Bool
is_stuck none finished now = false
is_stuck (some run) none now = ltb (run + stuck_after) now
is_stuck (some run) (some finished) now = ltb (run + stuck_after) now && ltb finished run

abbrev pub never_run : Ticket → Bool
never_run t = is_none t.last_agent_run_at

abbrev pub new_inbound : Ticket → Bool
new_inbound t = before t.last_agent_run_at t.last_inbound_at

abbrev pub stuck : Ticket → ℕ → Bool
stuck t now = is_stuck t.last_agent_run_at t.last_agent_finished_at now

unfoldable pub stamp : ℕ → Ticket → Ticket
stamp now t = record t { last_agent_run_at = some now }

unfoldable pub stamp_counted : ℕ → ℕ → Ticket → Ticket
stamp_counted now n t = record t { last_agent_run_at = some now; agent_failure_count = n }

unfoldable pub failed_params : ℕ → ℕ → ℕ → Actor → EscalateTicketParams
failed_params ticket_id now day actor = record {
  ticket_id = ticket_id;
  from_status = triaged;
  reason = NeedsOwnerReason.agent_failed;
  day = day;
  dedupe_key = none;
  now = now;
  quiet = false;
  draft_id = none;
  actor = actor;
  audit_action = AuditAction.ticket_escalated;
}

abbrev pub granted : Bool → Ticket → ℕ → ClaimResult
granted charged t now = claimed (record {
  stuck_claim = charged;
  ticket = t;
  thread_snapshot_at = t.last_inbound_at;
  prior_last_agent_run_at = t.last_agent_run_at;
  stamped_last_agent_run_at = now;
})

module _ (day_of : ℕ → ℕ) where
  -- The claim of a locked row that the stuck branch alone authorizes.
  unfoldable pub claim_stuck : Ticket → ℕ → ℕ → Tables → ClaimResult × Tables
  claim_stuck t ticket_id now s =
      let n = t.agent_failure_count + 1 in
      let s' = record s {
        tickets = (update_ticket ticket_id always (stamp_counted now n) s.tickets).0;
      } in
      if leb escalate_at n
      then (let (r, s'') =
            escalate_ticket (failed_params ticket_id now (day_of now) Actor.ticket_draft) s' in
          (refused (stuck_escalated r.notification_id), s''))
      else (granted true t now, s')

  unfoldable pub claim_locked : Ticket → ℕ → ℕ → Tables → ClaimResult × Tables
  claim_locked t ticket_id now s =
      if not (ticket_eq t.status triaged)
      then (refused (not_triaged t.status), s)
      else if leb escalate_at t.agent_failure_count
      then (refused failure_ceiling, s)
      else if not (never_run t) && not (new_inbound t) && not (stuck t now)
      then (refused watermark, s)
      else if stuck t now && not (never_run t) && not (new_inbound t)
      then claim_stuck t ticket_id now s
      else (
        granted false t now,
        record s { tickets = (update_ticket ticket_id always (stamp now) s.tickets).0 },
      )

  unfoldable pub claim_found : Option Ticket → ℕ → ℕ → Tables → ClaimResult × Tables
  claim_found none ticket_id now s = (refused ticket_missing, s)
  claim_found (some t) ticket_id now s = claim_locked t ticket_id now s

  unfoldable pub claim_ticket : ℕ → ℕ → Tables → ClaimResult × Tables
  unfolding claim_found
  claim_ticket ticket_id now s = claim_found (find_ticket ticket_id s.tickets) ticket_id now s

-- `last_agent_run_at = stamped`, false on NULL.
abbrev pub stamped_at : Option ℕ → ℕ → Bool
stamped_at none v = false
stamped_at (some a) v = a == v

unfoldable pub unwind_guard : ℕ → Ticket → Bool
unwind_guard stamped t = ticket_eq t.status triaged && stamped_at t.last_agent_run_at stamped

unfoldable pub restore : Option ℕ → Ticket → Ticket
restore prior t = record t { last_agent_run_at = prior }

unfoldable pub unwind_claim_stamp : ℕ → ℕ → Option ℕ → Tables → Bool × Tables
unwind_claim_stamp ticket_id stamped prior s =
    let (tickets, hit) = update_ticket ticket_id (unwind_guard stamped) (restore prior) s.tickets in
    (hit, record s { tickets = tickets })

unfoldable pub count_failure : ℕ → Ticket → Ticket
count_failure n t = record t { agent_failure_count = n }

unfoldable pub retry_failure : ℕ → Ticket → Ticket
retry_failure n t = record t { agent_failure_count = n; last_agent_run_at = none }

pub record Failure : Type 0 where
  pub escalated : Bool
  pub agent_failure_count : ℕ
  pub notification_id : Option ℕ

abbrev pub actor_of : Option ℕ → Actor
actor_of (some run) = Actor.agent_run run
actor_of none = Actor.ticket_draft

module _ (day_of : ℕ → ℕ) where
  failure_tail : Actor → ℕ → Failure × Tables → Failure × Tables
  failure_tail actor ticket_id (f, s) = (f, audit actor AuditAction.draft_run_failed ticket_id s)

  -- The ceiling branch.
  unfoldable pub failure_ceiling_branch : Ticket → ℕ → ℕ → Actor → ℕ → Tables → Failure × Tables
  failure_ceiling_branch t ticket_id now actor n s =
      let s' = record s {
        tickets = (update_ticket ticket_id always (count_failure n) s.tickets).0;
      } in
      if ticket_eq t.status triaged
      then (let (r, s'') = escalate_ticket (failed_params ticket_id now (day_of now) actor) s' in
          (
            record {
              escalated = r.escalated;
              agent_failure_count = n;
              notification_id = r.notification_id;
            },
            s'',
          ))
      else (record { escalated = false; agent_failure_count = n; notification_id = none }, s')

  unfoldable pub record_locked : Ticket → ℕ → ℕ → Option ℕ → Tables → Failure × Tables
  unfolding failure_tail
  record_locked t ticket_id now run_id s =
      let n = t.agent_failure_count + 1 in
      failure_tail (actor_of run_id) ticket_id (
        if leb escalate_at n
        then failure_ceiling_branch t ticket_id now (actor_of run_id) n s
        else (
          record { escalated = false; agent_failure_count = n; notification_id = none },
          record s { tickets = (update_ticket ticket_id always (retry_failure n) s.tickets).0 },
        ))

  record_found : Option Ticket → ℕ → ℕ → Option ℕ → Tables → Failure × Tables
  record_found none ticket_id now run_id s =
      (record { escalated = false; agent_failure_count = 0; notification_id = none }, s)
  record_found (some t) ticket_id now run_id s = record_locked t ticket_id now run_id s

  pub record_failure : ℕ → ℕ → Option ℕ → Tables → Failure × Tables
  unfolding record_found
  record_failure ticket_id now run_id s =
      record_found (find_ticket ticket_id s.tickets) ticket_id now run_id s

abbrev pub or_keep : Option ℕ → Option ℕ → Option ℕ
or_keep (some v) w = some v
or_keep none w = w

unfoldable pub finish_row : Option ℕ → ℕ → Ticket → Ticket
finish_row snapshot now t = record t {
  last_agent_finished_at = some now;
  last_agent_prompted_at = or_keep snapshot t.last_agent_prompted_at;
}

unfoldable pub stamp_finished : ℕ → Option ℕ → ℕ → Tables → Tables
stamp_finished ticket_id snapshot now s = record s {
  tickets = (update_ticket ticket_id always (finish_row snapshot now) s.tickets).0;
}
