-- ===== src/Worker/Claim/Failures.antt =====
-- apps/worker/src/drafting/claim.ts: failures, retries and the ceiling.
use ai_email_support_agent.Base.{
  ℕ, ◌+◌, Bool, true, false, not, ◌&&◌, ◌||◌, Option, some, ◌≡◌, refl, inl, inr, arith, Bool-cases,
  Option-cases, ltb, leb, if◌then◌else◌, All,
}
use ai_email_support_agent.Core.Transitions.{triaged, ticket_eq}
use ai_email_support_agent.Db.Tables.{
  Actor, Ticket, Tables, find_ticket, update_ticket, always, audit,
}
use ai_email_support_agent.Db.Tables.Rows.{
  find_ticket-update, update_ticket-update, All-update_ticket,
}
use ai_email_support_agent.Db.Escalations.{escalate_ticket, escalated_row, from_guard}
use ai_email_support_agent.Db.Escalations.Guarded.{
  escalate_ticket-find, escalate_ticket-tickets, escalate_ticket-escalated,
}
use ai_email_support_agent.Worker.Claim.{
  claimed, never_run, new_inbound, stuck, stamp, stamp_counted, escalate_at, failed_params,
  claim_locked, claim_stuck, claim_ticket, record_failure, record_locked, failure_ceiling_branch,
  failure_tail, actor_of, count_failure, retry_failure,
}
use ai_email_support_agent.Worker.Claim.Cases.{claim_of}

-- A row that the ceiling does not keep out of the drafting job forever: it is not `triaged`, or its
-- count is below AGENT_FAILURE_ESCALATE_AT.
unfoldable pub live : Ticket → Bool
live t = not (ticket_eq t.status triaged) || ltb t.agent_failure_count escalate_at

abbrev pub NoStrand : Tables → Type 0
NoStrand s = All (λ t. live t ≡ true) s.tickets

module _ (day_of : ℕ → ℕ) (k now : ℕ) (actor : Actor) where
  escalated_live :
      (t : Ticket)
      → live (
          if from_guard (failed_params k now (day_of now) actor) t
          then escalated_row (failed_params k now (day_of now) actor) t
          else t)
        ≡ true
  unfolding live from_guard escalated_row failed_params
  escalated_live t = ground arith

  -- Whatever the update before it, the escalation leaves a row that does not strand.
  escalate-NoStrand :
      (f : Ticket → Ticket) (s : Tables)
      → ((t : Ticket) → (f t).id ≡ t.id)
      → NoStrand s
      → NoStrand
          (escalate_ticket
            (failed_params k now (day_of now) actor)
            (record s { tickets = (update_ticket k always f s.tickets).0 })).1
  unfolding failed_params
  escalate-NoStrand f s keeps a =
      rw (escalate_ticket-tickets, update_ticket-update f keeps)
        (All-update_ticket _ always _ k s.tickets (λ t e l. escalated_live (f t)) a)

module _ (day_of : ℕ → ℕ) (k now : ℕ) (actor : Actor) (s : Tables) (t : Ticket) where
  triaged_row :
      find_ticket k s.tickets ≡ some t
      → t.status ≡ triaged
      → let (r, s') =
          escalate_ticket
            (failed_params k now (day_of now) actor)
            (record s { tickets = (update_ticket k always (count_failure 2) s.tickets).0 }) in
        (r.escalated ≡ true)
        × (find_ticket k s'.tickets
            ≡ some (escalated_row (failed_params k now (day_of now) actor) (count_failure 2 t)))
  unfolding failed_params count_failure from_guard
  triaged_row h a = (
    rw
        (
          escalate_ticket-escalated,
          find_ticket-update always (count_failure 2) (λ u. refl) k s.tickets,
          h,
          a,
        )
        refl,
    rw
        (
          escalate_ticket-find,
          find_ticket-update always (count_failure 2) (λ u. refl) k s.tickets,
          h,
          a,
        )
        refl,
  )

module _ (day_of : ℕ → ℕ) where
  claim_stuck-NoStrand :
      (t : Ticket) (k now : ℕ) (s : Tables) → NoStrand s → NoStrand (claim_stuck day_of t k now s).1
  unfolding claim_stuck stamp_counted live
  claim_stuck-NoStrand t k now s a =
      elim (Bool-cases (leb escalate_at (t.agent_failure_count + 1))) [
        | inl over ↦ rw over (
            escalate-NoStrand day_of k now Actor.ticket_draft
              (stamp_counted now (t.agent_failure_count + 1)) s (λ u. refl) a)
        | inr low ↦ rw low (All-update_ticket _ always _ k s.tickets (λ u e l. ground arith) a)
      ]

  claim_locked-NoStrand :
      (t : Ticket) (k now : ℕ) (s : Tables)
      → NoStrand s
      → NoStrand (claim_locked day_of t k now s).1
  unfolding claim_locked stamp live
  claim_locked-NoStrand t k now s a = elim (Bool-cases (not (ticket_eq t.status triaged))) [
    | inl away ↦ rw away a
    | inr here ↦ elim (Bool-cases (leb escalate_at t.agent_failure_count)) [
      | inl over ↦ rw (here, over) a
      | inr low ↦
          elim (Bool-cases (not (never_run t) && not (new_inbound t) && not (stuck t now))) [
            | inl quiet ↦ rw (here, low, quiet) a
            | inr call ↦
                elim (Bool-cases (stuck t now && not (never_run t) && not (new_inbound t))) [
                  | inl charged ↦ rw (here, low, call, charged) (claim_stuck-NoStrand t k now s a)
                  | inr free ↦
                      rw (here, low, call, free)
                        (All-update_ticket _ always _ k s.tickets (λ u e l. l) a)
                ]
          ]
    ]
  ]

  -- A claim, granted or refused, leaves no ticket `triaged` at the failure ceiling, if there was none.
  pub claim_ticket-NoStrand :
      (k now : ℕ) (s : Tables) → NoStrand s → NoStrand (claim_ticket day_of k now s).1
  unfolding claim_ticket
  claim_ticket-NoStrand k now s a = elim (Option-cases (find_ticket k s.tickets)) [
    | inl gone ↦ rw gone a
    | inr (t, here) ↦ rw here (claim_locked-NoStrand t k now s a)
  ]

  record_locked-NoStrand :
      (t : Ticket) (k now : ℕ) (run : Option ℕ) (s : Tables)
      → find_ticket k s.tickets ≡ some t
      → NoStrand s
      → NoStrand (record_locked day_of t k now run s).1
  unfolding record_locked failure_tail failure_ceiling_branch audit count_failure retry_failure live
  record_locked-NoStrand t k now run s h a =
      elim (Bool-cases (leb escalate_at (t.agent_failure_count + 1))) [
        | inl over ↦ elim (Bool-cases (ticket_eq t.status triaged)) [
          | inl here ↦
              rw (over, here)
                (escalate-NoStrand day_of k now (actor_of run)
                  (count_failure (t.agent_failure_count + 1)) s (λ u. refl) a)
          | inr away ↦
              rw (over, away)
                (All-update_ticket _ always _ k s.tickets
                  (λ u e l.
                    let same_row : t ≡ u = cc in
                    let away' : ticket_eq u.status triaged ≡ false = rw same_row at away in
                    rw away' refl)
                  a)
        ]
        | inr low ↦ rw low (All-update_ticket _ always _ k s.tickets (λ u e l. ground arith) a)
      ]

  -- A counted failure leaves no ticket `triaged` at the failure ceiling, if there was none: the one that
  -- reaches it is escalated by the same call.
  pub record_failure-NoStrand :
      (k now : ℕ) (run : Option ℕ) (s : Tables)
      → NoStrand s
      → NoStrand (record_failure day_of k now run s).1
  unfolding record_failure
  record_failure-NoStrand k now run s a = elim (Option-cases (find_ticket k s.tickets)) [
    | inl gone ↦ rw gone a
    | inr (t, here) ↦ rw here (record_locked-NoStrand t k now run s here a)
  ]

  -- The first failure of a `triaged` ticket frees the claim: the very next claim, whenever it comes, is
  -- granted with no failure charged.
  pub record_failure-retry :
      (k now now' : ℕ) (run : Option ℕ) (s : Tables) (t : Ticket)
      → find_ticket k s.tickets ≡ some t
      → t.status ≡ triaged
      → t.agent_failure_count ≡ 0
      → (claim_ticket day_of k now' (record_failure day_of k now run s).1).0
        ≡ claimed (claim_of false (retry_failure 1 t) now')
  unfolding record_failure record_locked failure_tail audit claim_ticket claim_locked retry_failure
  record_failure-retry k now now' run s t h a z =
      rw (h, z, find_ticket-update always (retry_failure 1) (λ u. refl) k s.tickets, h, a) refl

  -- The second failure of a `triaged` ticket escalates it: the row is `needs_owner` for `agent_failed`, and
  -- the call says so.
  pub record_failure-ceiling :
      (k now : ℕ) (run : Option ℕ) (s : Tables) (t : Ticket)
      → find_ticket k s.tickets ≡ some t
      → t.status ≡ triaged
      → t.agent_failure_count ≡ 1
      → let (r, s') = record_failure day_of k now run s in
        (r.escalated ≡ true)
        × (r.agent_failure_count ≡ 2)
        × (find_ticket k s'.tickets
            ≡ some (
                escalated_row
                  (failed_params k now (day_of now) (actor_of run))
                  (count_failure 2 t)))
  unfolding record_failure record_locked failure_tail audit failure_ceiling_branch count_failure
      escalated_row
  record_failure-ceiling k now run s t h a z =
      let flip = triaged_row day_of k now (actor_of run) s t h a in
      rw (h, z, a) (flip.0, refl, flip.1)
