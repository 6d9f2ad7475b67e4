-- ===== src/Core/Transitions.antt =====
-- packages/core/src/transitions.ts: the legal-transition matrices. `defineTransitions` throws on a
-- matrix that lists a self-transition; a machine is the matrix that passed that test.
pub mod Trails
use ai_email_support_agent.Base.{
  ℕ, ◌==◌, ◌||◌, Bool, true, false, List, [], ◌∷◌, ◌⊎◌, inl, inr, if◌then◌else◌,
}

-- `matrix[from].includes(to)`
abbrev pub includes {ℓ} : {S : Type ℓ} → (S → S → Bool) → List S → S → Bool
includes eq [] x = false
includes eq (y ∷ ys) x = eq y x || includes eq ys x

pub data TransitionError (S : Type 0) : Type 0 where
  self_transition : S → TransitionError S
  illegal_transition : S → S → TransitionError S

pub record Transitions (S : Type 0) : Type 0 where
  pub matrix : S → List S

module _ {S : Type 0} (eq : S → S → Bool) where
  -- The loop over the matrix's entries, in their order.
  check_entries : (S → List S) → List S → TransitionError S ⊎ Transitions S
  check_entries matrix [] = inr (record { matrix = matrix })
  check_entries matrix (from ∷ rest) =
      if includes eq (matrix from) from
      then inl (self_transition from)
      else check_entries matrix rest

  pub define_transitions : List S → (S → List S) → TransitionError S ⊎ Transitions S
  define_transitions keys matrix = check_entries matrix keys

  abbrev pub can : (S → List S) → S → S → Bool
  can matrix from to = includes eq (matrix from) to

  -- `assert` returns, or throws `IllegalTransitionError(from, to)`.
  pub assert : (S → List S) → S → S → TransitionError S ⊎ Unit {0}
  assert matrix from to = if can matrix from to then inr tt else inl (illegal_transition from to)

pub data TicketStatus : Type 0 where
  new triaged awaiting_review auto_sending needs_owner waiting_on_customer resolved : TicketStatus

pub data DraftStatus : Type 0 where
  pending approved held sending sent rejected superseded expired failed : DraftStatus

pub data OutboundSendStatus : Type 0 where
  queued held claimed sent failed : OutboundSendStatus

pub data AgentRunStatus : Type 0 where
  running succeeded failed aborted : AgentRunStatus

-- Statuses are texts in the source, compared by `===`: here by their place in the list of statuses.
abbrev ticket_place : TicketStatus → ℕ
ticket_place TicketStatus.new = 0
ticket_place TicketStatus.triaged = 1
ticket_place TicketStatus.awaiting_review = 2
ticket_place TicketStatus.auto_sending = 3
ticket_place TicketStatus.needs_owner = 4
ticket_place TicketStatus.waiting_on_customer = 5
ticket_place TicketStatus.resolved = 6

abbrev pub ticket_eq : TicketStatus → TicketStatus → Bool
ticket_eq a b = ticket_place a == ticket_place b

abbrev pub ticket_statuses : List TicketStatus
ticket_statuses =
    TicketStatus.new ∷ TicketStatus.triaged ∷ TicketStatus.awaiting_review
    ∷ TicketStatus.auto_sending ∷ TicketStatus.needs_owner ∷ TicketStatus.waiting_on_customer
    ∷ TicketStatus.resolved ∷ []

abbrev draft_place : DraftStatus → ℕ
draft_place DraftStatus.pending = 0
draft_place DraftStatus.approved = 1
draft_place DraftStatus.held = 2
draft_place DraftStatus.sending = 3
draft_place DraftStatus.sent = 4
draft_place DraftStatus.rejected = 5
draft_place DraftStatus.superseded = 6
draft_place DraftStatus.expired = 7
draft_place DraftStatus.failed = 8

abbrev pub draft_eq : DraftStatus → DraftStatus → Bool
draft_eq a b = draft_place a == draft_place b

abbrev pub draft_statuses : List DraftStatus
draft_statuses =
    DraftStatus.pending ∷ DraftStatus.approved ∷ DraftStatus.held ∷ DraftStatus.sending
    ∷ DraftStatus.sent ∷ DraftStatus.rejected ∷ DraftStatus.superseded ∷ DraftStatus.expired
    ∷ DraftStatus.failed ∷ []

abbrev outbound_send_place : OutboundSendStatus → ℕ
outbound_send_place OutboundSendStatus.queued = 0
outbound_send_place OutboundSendStatus.held = 1
outbound_send_place OutboundSendStatus.claimed = 2
outbound_send_place OutboundSendStatus.sent = 3
outbound_send_place OutboundSendStatus.failed = 4

abbrev pub outbound_send_eq : OutboundSendStatus → OutboundSendStatus → Bool
outbound_send_eq a b = outbound_send_place a == outbound_send_place b

abbrev pub outbound_send_statuses : List OutboundSendStatus
outbound_send_statuses =
    OutboundSendStatus.queued ∷ OutboundSendStatus.held ∷ OutboundSendStatus.claimed
    ∷ OutboundSendStatus.sent ∷ OutboundSendStatus.failed ∷ []

abbrev agent_run_place : AgentRunStatus → ℕ
agent_run_place AgentRunStatus.running = 0
agent_run_place AgentRunStatus.succeeded = 1
agent_run_place AgentRunStatus.failed = 2
agent_run_place AgentRunStatus.aborted = 3

abbrev pub agent_run_eq : AgentRunStatus → AgentRunStatus → Bool
agent_run_eq a b = agent_run_place a == agent_run_place b

abbrev pub agent_run_statuses : List AgentRunStatus
agent_run_statuses =
    AgentRunStatus.running ∷ AgentRunStatus.succeeded ∷ AgentRunStatus.failed
    ∷ AgentRunStatus.aborted ∷ []

unfoldable pub ticket_matrix : TicketStatus → List TicketStatus
ticket_matrix new = triaged ∷ needs_owner ∷ resolved ∷ []
ticket_matrix triaged = awaiting_review ∷ auto_sending ∷ needs_owner ∷ resolved ∷ []
ticket_matrix awaiting_review = waiting_on_customer ∷ triaged ∷ needs_owner ∷ resolved ∷ []
ticket_matrix auto_sending = waiting_on_customer ∷ awaiting_review ∷ triaged ∷ needs_owner ∷ []
ticket_matrix needs_owner = triaged ∷ resolved ∷ waiting_on_customer ∷ awaiting_review ∷ []
ticket_matrix waiting_on_customer = new ∷ resolved ∷ []
ticket_matrix resolved = new ∷ []

unfoldable pub draft_matrix : DraftStatus → List DraftStatus
draft_matrix pending = approved ∷ rejected ∷ superseded ∷ expired ∷ []
draft_matrix approved = sending ∷ DraftStatus.held ∷ DraftStatus.failed ∷ superseded ∷ []
draft_matrix DraftStatus.held = pending ∷ expired ∷ []
draft_matrix sending = DraftStatus.sent ∷ DraftStatus.failed ∷ DraftStatus.held ∷ []
draft_matrix DraftStatus.sent = []
draft_matrix rejected = []
draft_matrix superseded = []
draft_matrix expired = []
draft_matrix DraftStatus.failed = pending ∷ []

unfoldable pub outbound_send_matrix : OutboundSendStatus → List OutboundSendStatus
outbound_send_matrix queued = OutboundSendStatus.held ∷ claimed ∷ OutboundSendStatus.failed ∷ []
outbound_send_matrix OutboundSendStatus.held = queued ∷ OutboundSendStatus.failed ∷ []
outbound_send_matrix claimed =
    OutboundSendStatus.sent ∷ OutboundSendStatus.failed ∷ queued ∷ OutboundSendStatus.held ∷ []
outbound_send_matrix OutboundSendStatus.sent = []
outbound_send_matrix OutboundSendStatus.failed = queued ∷ []

unfoldable pub agent_run_matrix : AgentRunStatus → List AgentRunStatus
agent_run_matrix running = succeeded ∷ AgentRunStatus.failed ∷ aborted ∷ []
agent_run_matrix succeeded = []
agent_run_matrix AgentRunStatus.failed = []
agent_run_matrix aborted = []

unfoldable pub ticket_can : TicketStatus → TicketStatus → Bool
unfolding ticket_matrix
ticket_can = can ticket_eq ticket_matrix

unfoldable pub draft_can : DraftStatus → DraftStatus → Bool
unfolding draft_matrix
draft_can = can draft_eq draft_matrix

unfoldable pub outbound_can : OutboundSendStatus → OutboundSendStatus → Bool
unfolding outbound_send_matrix
outbound_can = can outbound_send_eq outbound_send_matrix

unfoldable pub run_can : AgentRunStatus → AgentRunStatus → Bool
unfolding agent_run_matrix
run_can = can agent_run_eq agent_run_matrix
