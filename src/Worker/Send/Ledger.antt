-- ===== src/Worker/Send/Ledger.antt =====
-- apps/worker/src/jobs/send-execute.ts: what each transaction does to the ledger of sends.
use ai_email_support_agent.Base.{
  ℕ, ◌≡◌, refl, sym, ◌∙◌, Bool, true, false, Option, none, some, List, inl, inr, arith, Bool-cases,
  Option-cases, find_row, update_row, update_row-hits, update_row_miss, find_row-id, hits,
}
use ai_email_support_agent.Core.Transitions.{OutboundSendStatus, sent, claimed}
use ai_email_support_agent.Db.Drafts.{OutboundSend, KillLever, SendError}
use ai_email_support_agent.Db.Tables.{update_ticket, DedupeKey, has_key}
use ai_email_support_agent.Db.Sends.{
  World, send_id, enqueue, update_draft, audit_in, insert_page, enqueue_page,
}
use ai_email_support_agent.Worker.Send.{is_status}
use ai_email_support_agent.Worker.Send.Land.{
  Landing, not_sent, released, set_send_status, walk_back_draft, unless_sent, then_page,
  held_writes, land_held, escalate_in, terminal_writes, land_terminal, stale_writes, land_stale,
  update_ticket_in, dead_letter_writes, land_dead_letter, collapse_claim_horizon, collapse_guard,
  collapse_set,
}
use ai_email_support_agent.Worker.Send.Complete.{
  CompleteSendInput, ModelSettings, complete_set, completion_writes, complete_send, meter_send,
  meter_conversation, send_draft, settle_ticket, park_guard, parked, hand_back_job,
}

enqueue_page-sends : (n : Option ℕ) (w : World) → (enqueue_page n w).sends ≡ w.sends
unfolding enqueue
enqueue_page-sends none w = refl
enqueue_page-sends (some n) w = refl

pub insert_page-sends :
    (t d : Option ℕ) (k : DedupeKey) (w : World) → (insert_page t d k w).1.sends ≡ w.sends
unfolding insert_page
insert_page-sends t d k w = elim (Bool-cases (has_key k w.tables.notifications)) [
  | inl h ↦ rw h refl
  | inr h ↦ rw h refl
]

pub then_page-sends : (r : Option ℕ × World) → (then_page r).sends ≡ r.1.sends
then_page-sends (n, w) = enqueue_page-sends n w

-- The ledger after `setSendStatus`.
abbrev pub released_rows :
    ℕ → OutboundSendStatus → SendError → Option ℕ → List OutboundSend → List OutboundSend
released_rows send status error after rows =
    (update_row send_id send not_sent (released status error after) rows).0

module _ (send : ℕ) (status : OutboundSendStatus) (error : SendError) (after : Option ℕ) where
  -- A landing on the ledger: its release, whatever else it writes.
  unless_sent-sends :
      (k : World → Option ℕ × World) (w : World)
      → ((w' : World) → (k w').1.sends ≡ w'.sends)
      → (unless_sent (set_send_status send status error after w) k w).1.sends
        ≡ released_rows send status error after w.sends
  unfolding set_send_status
  unless_sent-sends k w h =
      elim (Bool-cases (update_row send_id send not_sent (released status error after) w.sends).1) [
        | inl hit ↦ rw hit (h _)
        | inr miss ↦
            rw miss (
              sym
                (update_row_miss send_id not_sent (released status error after) send w.sends miss))
      ]

held_writes-sends : (l : Landing) (w : World) → (held_writes l w).1.sends ≡ w.sends
unfolding held_writes audit_in walk_back_draft update_draft
held_writes-sends l w = insert_page-sends _ _ _ _

pub land_held-sends :
    (l : Landing) (lever : KillLever) (w : World)
    → (land_held l lever w).sends
      ≡ released_rows l.send_id OutboundSendStatus.held (SendError.held_by lever) none w.sends
unfolding land_held
land_held-sends l lever w =
    then_page-sends _
    ∙ unless_sent-sends l.send_id OutboundSendStatus.held (SendError.held_by lever) none
        (held_writes l) w (held_writes-sends l)

terminal_writes-sends :
    (l : Landing) (escalate : Bool) (w : World) → (terminal_writes l escalate w).1.sends ≡ w.sends
unfolding terminal_writes escalate_in audit_in walk_back_draft update_draft
terminal_writes-sends l true w = refl
terminal_writes-sends l false w = refl

pub land_terminal-sends :
    (l : Landing) (reason : SendError) (escalate : Bool) (w : World)
    → (land_terminal l reason escalate w).sends
      ≡ released_rows l.send_id OutboundSendStatus.failed reason none w.sends
unfolding land_terminal
land_terminal-sends l reason escalate w =
    then_page-sends _
    ∙ unless_sent-sends l.send_id OutboundSendStatus.failed reason none (terminal_writes l escalate)
        w (terminal_writes-sends l escalate)

stale_writes-sends : (l : Landing) (w : World) → (stale_writes l w).1.sends ≡ w.sends
unfolding stale_writes enqueue audit_in walk_back_draft update_draft update_ticket_in
stale_writes-sends l w = enqueue_page-sends _ _ ∙ insert_page-sends _ _ _ _

pub land_stale-sends :
    (l : Landing) (w : World)
    → (land_stale l w).sends
      ≡ released_rows l.send_id OutboundSendStatus.failed SendError.stale_thread none w.sends
unfolding land_stale
land_stale-sends l w =
    unless_sent-sends l.send_id OutboundSendStatus.failed SendError.stale_thread none
      (stale_writes l) w (stale_writes-sends l)

pub collapse_claim_horizon-sends :
    (send token now : ℕ) (w : World)
    → (collapse_claim_horizon send token now w).sends
      ≡ (update_row send_id send (collapse_guard token) (collapse_set now) w.sends).0
unfolding collapse_claim_horizon
collapse_claim_horizon-sends send token now w = refl

-- A send that is missing or `sent` is not released.
released_rows_none :
    (send : ℕ) (status : OutboundSendStatus) (error : SendError) (after : Option ℕ)
    (rows : List OutboundSend)
    → hits not_sent (find_row send_id send rows) ≡ false
    → released_rows send status error after rows ≡ rows
released_rows_none send status error after rows h =
    update_row_miss send_id not_sent (released status error after) send rows
      (update_row-hits send_id not_sent (released status error after) send rows ∙ h)

sent-hits : (row : OutboundSend) → is_status sent row ≡ true → not_sent row ≡ false
unfolding not_sent
sent-hits row h = rw h refl

dead_letter_writes-sends :
    (row : OutboundSend) (send day now : ℕ) (w : World)
    → row.id ≡ send
    → (dead_letter_writes row day now w).1.sends
      ≡ released_rows send OutboundSendStatus.failed SendError.failure none w.sends
unfolding dead_letter_writes escalate_in audit_in walk_back_draft update_draft set_send_status
dead_letter_writes-sends row send day now w h = rw h refl

pub land_dead_letter-sends :
    (send day now : ℕ) (w : World)
    → (land_dead_letter send day now w).sends
      ≡ released_rows send OutboundSendStatus.failed SendError.failure none w.sends
unfolding land_dead_letter
land_dead_letter-sends send day now w = elim (Option-cases (find_row send_id send w.sends)) [
  | inl gone ↦ rw gone (
      sym (
        released_rows_none send OutboundSendStatus.failed SendError.failure none w.sends
          (rw gone refl)))
  | inr (row, here) ↦ elim (Bool-cases (is_status sent row)) [
    | inl over ↦
        rw (here, over)
          (sym (
            released_rows_none send OutboundSendStatus.failed SendError.failure none w.sends
              (rw here (sent-hits row over))))
    | inr pending ↦
        rw (here, pending)
          (enqueue_page-sends (dead_letter_writes row day now w).0
              (dead_letter_writes row day now w).1
            ∙ dead_letter_writes-sends row send day now w
                (find_row-id send_id send w.sends row here))
  ]
]

settle_ticket-sends :
    (l : Landing) (snapshot : ℕ) (w : World) → (settle_ticket l snapshot w).1.sends ≡ w.sends
unfolding settle_ticket
settle_ticket-sends l snapshot w =
    elim (Bool-cases (update_ticket l.ticket_id (park_guard snapshot) parked w.tables.tickets).1) [
      | inl f ↦ rw f refl
      | inr f ↦ rw f refl
    ]

module _ (to_iso_string : ℕ → List ℕ) (models : ModelSettings) where
  meter_conversation-sends :
      (l : Landing) (input : CompleteSendInput) (w : World)
      → (meter_conversation to_iso_string models l input w).sends ≡ w.sends
  unfolding meter_conversation
  meter_conversation-sends l input w = ground arith

  meter_send-sends :
      (l : Landing) (input : CompleteSendInput) (w : World)
      → (meter_send to_iso_string models l input w).sends ≡ w.sends
  unfolding meter_send audit_in
  meter_send-sends l input w = meter_conversation-sends l input _

  hand_back_job-sends :
      (l : Landing) (b : Bool) (w : World)
      → (hand_back_job to_iso_string models l b w).sends ≡ w.sends
  unfolding enqueue
  hand_back_job-sends l true w = refl
  hand_back_job-sends l false w = refl

  pub complete_send-sends :
      (l : Landing) (input : CompleteSendInput) (w : World)
      → (complete_send to_iso_string models l input w).sends
        ≡ (update_row send_id l.send_id (is_status claimed) (complete_set l input) w.sends).0
  unfolding complete_send completion_writes send_draft update_draft enqueue
  complete_send-sends l input w =
      elim (Bool-cases
        (update_row send_id l.send_id (is_status claimed) (complete_set l input) w.sends).1) [
          | inl done ↦ rw done (
              hand_back_job-sends l _ _
              ∙ meter_send-sends l input _
              ∙ settle_ticket-sends l input.thread_snapshot_at _)
          | inr late ↦ rw late (settle_ticket-sends l input.thread_snapshot_at _)
        ]
