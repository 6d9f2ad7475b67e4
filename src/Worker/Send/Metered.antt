-- ===== src/Worker/Send/Metered.antt =====
-- apps/worker/src/jobs/send-execute.ts, completeSend: the completion gate and what counts a reply.
use ai_email_support_agent.Base.{
  ℕ, ◌≡◌, refl, ◌∙◌, false, Option, none, some, List, inl, inr, arith, Bool-cases, find_row,
  update_row-hits, hits, updated, find_row-update,
}
use ai_email_support_agent.Core.Transitions.{claimed}
use ai_email_support_agent.Db.Drafts.{OutboundSend}
use ai_email_support_agent.Db.Tables.{update_ticket}
use ai_email_support_agent.Db.Sends.{World, send_id, update_draft}
use ai_email_support_agent.Worker.Send.{is_status}
use ai_email_support_agent.Worker.Send.Land.{Landing}
use ai_email_support_agent.Worker.Send.Complete.{
  CompleteSendInput, ModelSettings, complete_set, completion_writes, complete_send, send_draft,
  settle_ticket, park_guard, parked,
}
use ai_email_support_agent.Worker.Send.Ledger.{complete_send-sends}

-- What is not idempotent: the meters, the trail and the jobs.
abbrev pub SameBooks : World → World → Type 0
SameBooks a b = (a.counters ≡ b.counters) × (a.jobs ≡ b.jobs) × (a.tables.audits ≡ b.tables.audits)

settle_ticket-books :
    (l : Landing) (snapshot : ℕ) (w : World) → SameBooks (settle_ticket l snapshot w).1 w
unfolding settle_ticket
settle_ticket-books l snapshot w =
    elim (Bool-cases (update_ticket l.ticket_id (park_guard snapshot) parked w.tables.tickets).1) [
      | inl f ↦ rw f (refl, refl, refl)
      | inr f ↦ rw f (refl, refl, refl)
    ]

complete_set-claimed :
    (l : Landing) (input : CompleteSendInput) (o : Option OutboundSend)
    → hits (is_status claimed) (updated (is_status claimed) (complete_set l input) o) ≡ false
unfolding complete_set
complete_set-claimed l input none = refl
complete_set-claimed l input (some s) = ground arith

module _ (to_iso_string : ℕ → List ℕ) (models : ModelSettings) where
  complete_send_late :
      (l : Landing) (input : CompleteSendInput) (w : World)
      → hits (is_status claimed) (find_row send_id l.send_id w.sends) ≡ false
      → SameBooks (complete_send to_iso_string models l input w) w
  unfolding complete_send completion_writes send_draft update_draft
  complete_send_late l input w h =
      let late =
        update_row-hits send_id (is_status claimed) (complete_set l input) l.send_id w.sends ∙ h in
      rw late (settle_ticket-books l input.thread_snapshot_at _)

  complete_send-claimed :
      (l : Landing) (input : CompleteSendInput) (w : World)
      → hits
          (is_status claimed)
          (find_row send_id l.send_id (complete_send to_iso_string models l input w).sends)
        ≡ false
  unfolding complete_set
  complete_send-claimed l input w =
      rw
        (
          complete_send-sends to_iso_string models l input w,
          find_row-update send_id (is_status claimed) (complete_set l input) (λ s. refl) l.send_id
              w.sends,
        )
        (complete_set-claimed l input (find_row send_id l.send_id w.sends))

  -- Completing one send twice, by any two runs and with whatever either read, counts it once: the
  -- second completion leaves the usage counters, the audit trail and the enqueued jobs as they were.
  pub complete_send-twice :
      (l l' : Landing) (input input' : CompleteSendInput) (w : World)
      → l'.send_id ≡ l.send_id
      → SameBooks
          (complete_send to_iso_string models l' input'
            (complete_send to_iso_string models l input w))
          (complete_send to_iso_string models l input w)
  complete_send-twice l l' input input' w same =
      complete_send_late l' input' (complete_send to_iso_string models l input w)
        (rw same (complete_send-claimed l input w))
