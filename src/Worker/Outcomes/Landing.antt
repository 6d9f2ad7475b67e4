-- ===== src/Worker/Outcomes/Landing.antt =====
-- apps/worker/src/drafting/outcomes.ts: `applyDraftOutcome`, the landing of a run that wrote a draft, and
-- the record of one that lost its race.
use ai_email_support_agent.Base.{
  ℕ, suc, Bool, Option, none, some, List, [], ◌∷◌, ◌++◌, ltb, if◌then◌else◌, ◌⊎◌, inl, inr,
}
use ai_email_support_agent.Core.Transitions.{
  TicketStatus, ticket_eq, triaged, awaiting_review, auto_sending, queued,
}
use ai_email_support_agent.Db.Tables.{
  Ticket, AuditAction, DedupeKey, draft_review, auto_send, Tables, find_ticket, update_ticket,
  audit, has_key,
}
use ai_email_support_agent.Db.Escalations.{escalate_ticket}
use ai_email_support_agent.Db.Drafts.{count_live, flag_answers}
use ai_email_support_agent.Worker.Outcomes.{
  Store, OutcomeContext, DraftLanding, DraftRowInput, LandingError, review, escalate, auto,
  propose_lost_race, escalate_lost_race, live_draft_exists, retire_all, new_draft, run_actor,
  run_escalation, finalize,
}

unfoldable pub is_triaged : Ticket → Bool
is_triaged t = ticket_eq t.status triaged

unfoldable pub set_status : TicketStatus → Ticket → Ticket
set_status to t = record t { status = to }

-- `ON CONFLICT (dedupe_key) DO NOTHING RETURNING id`
unfoldable pub push_draft : DedupeKey → ℕ → ℕ → Tables → Option ℕ × Tables
push_draft key ticket_id draft_id t = if has_key key t.notifications then (none, t) else (
  some t.next_id,
  record t {
    notifications =
        t.notifications
        ++ record {
          id = t.next_id;
          reason = none;
          ticket_id = some ticket_id;
          draft_id = some draft_id;
          dedupe_key = key;
        }
          ∷ [];
    next_id = suc t.next_id;
  },
)

-- What a guarded flip of the ticket answers, and what the probe of the escalate landing does.
unfoldable pub flipped : Tables → List Ticket × Bool → LandingError ⊎ Tables
flipped t (tickets, hit) =
    if hit then inr (record t { tickets = tickets }) else inl propose_lost_race

unfoldable pub probed : Tables → Option Ticket → LandingError ⊎ Tables
unfolding is_triaged
probed t none = inl escalate_lost_race
probed t (some row) = if is_triaged row then inr t else inl escalate_lost_race

unfoldable pub take_ticket : OutcomeContext → DraftLanding → Tables → LandingError ⊎ Tables
unfolding flipped probed
take_ticket ctx review t =
    flipped t (update_ticket ctx.ticket_id is_triaged (set_status awaiting_review) t.tickets)
take_ticket ctx (auto send_after push) t =
    flipped t (update_ticket ctx.ticket_id is_triaged (set_status auto_sending) t.tickets)
take_ticket ctx (escalate reason quiet) t = probed t (find_ticket ctx.ticket_id t.tickets)

-- The draft row, unless the index says that the ticket has a live one.
unfoldable pub insert_draft :
    OutcomeContext → DraftLanding → DraftRowInput → Store → LandingError ⊎ (ℕ × Store)
insert_draft ctx landing row s =
    if ltb 0 (count_live ctx.ticket_id s.drafts)
    then inl live_draft_exists
    else (let id = s.tables.next_id in
        inr (
          id,
          record s {
            drafts = s.drafts ++ new_draft ctx landing row id s.drafts ∷ [];
            tables = record s.tables { next_id = suc id };
            answers = flag_answers row.memory_conflict_ids s.answers;
          },
        ))

pub record Landed : Type 0 where
  pub draft_id : ℕ
  pub notification_id : Option ℕ
  pub send_id : Option ℕ

abbrev pub connection_of : Option Ticket → ℕ
connection_of none = 0
connection_of (some t) = t.connection_id

-- The row of the ledger of sends, due when the hold window is over.
unfoldable pub queue_send : OutcomeContext → ℕ → ℕ → Store → ℕ × Store
queue_send ctx draft_id send_after s =
    let id = s.tables.next_id in
    (
      id,
      record s {
        sends =
            s.sends
            ++ record {
              id = id;
              draft_id = draft_id;
              ticket_id = ctx.ticket_id;
              connection_id = connection_of (find_ticket ctx.ticket_id s.tables.tickets);
              status = queued;
              send_after = send_after;
              agent_id = some ctx.agent_id;
              claimed_at = none;
              claim_expires_at = none;
              claim_token = none;
              provider_draft_id = none;
              provider_message_id = none;
              attempts = 0;
              last_error = none;
              sent_at = none;
            }
              ∷ [];
        tables = record s.tables { next_id = suc id };
      },
    )

-- What each landing adds to the draft: a page, a send or an escalation.
unfoldable pub announce :
    OutcomeContext → DraftLanding → ℕ → Store → LandingError ⊎ (Landed × Store)
unfolding queue_send
announce ctx review draft s =
    let (n, t) = push_draft (draft_review draft) ctx.ticket_id draft s.tables in
    inr (record { draft_id = draft; notification_id = n; send_id = none }, record s { tables = t })
announce ctx (auto send_after push) draft s =
    let (send, s₁) = queue_send ctx draft send_after s in
    let (n, t) = push_draft (auto_send draft) ctx.ticket_id draft s₁.tables in
    if push
    then inr (
      record { draft_id = draft; notification_id = n; send_id = some send },
      record s₁ { tables = t },
    )
    else inr (record { draft_id = draft; notification_id = none; send_id = some send }, s₁)
announce ctx (escalate reason quiet) draft s =
    let (r, t) = escalate_ticket (run_escalation ctx reason quiet (some draft)) s.tables in
    if r.escalated
    then inr (
      record { draft_id = draft; notification_id = r.notification_id; send_id = none },
      record s { tables = t },
    )
    else inl escalate_lost_race

unfoldable pub close : OutcomeContext → Landed × Store → Landed × Store
close ctx (landed, s) = (
  landed,
  finalize ctx (record s {
    tables = audit (run_actor ctx) AuditAction.draft_created ctx.ticket_id s.tables;
  }),
)

unfoldable pub retire_live : OutcomeContext → Store → Store
retire_live ctx s = let (ds, s') = retire_all ctx s.drafts s in record s' { drafts = ds }

unfoldable pub and_then {ℓ κ} :
    {A : Type ℓ} {B : Type κ} → LandingError ⊎ A → (A → LandingError ⊎ B) → LandingError ⊎ B
and_then (inl e) f = inl e
and_then (inr a) f = f a

unfoldable pub apply_draft_outcome :
    OutcomeContext → DraftLanding → DraftRowInput → Store → LandingError ⊎ (Landed × Store)
unfolding and_then
apply_draft_outcome ctx landing row s = and_then (take_ticket ctx landing s.tables) (λ t.
    and_then (insert_draft ctx landing row (retire_live ctx (record s { tables = t }))) (λ inserted.
      and_then (announce ctx landing inserted.0 inserted.1) (λ landed. inr (close ctx landed))))

abbrev pub lost_race_action : LandingError → AuditAction
lost_race_action escalate_lost_race = AuditAction.draft_escalate_lost_race
lost_race_action _ = AuditAction.draft_propose_lost_race

-- A fresh transaction after a lost race.
unfoldable pub record_lost_race : OutcomeContext → LandingError → Store → Store
record_lost_race ctx error s =
    finalize ctx
      (record s { tables = audit (run_actor ctx) (lost_race_action error) ctx.ticket_id s.tables })
