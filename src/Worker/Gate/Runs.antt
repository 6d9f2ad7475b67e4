-- ===== src/Worker/Gate/Runs.antt =====
-- apps/worker/src/drafting/caps.ts and apps/worker/src/drafting/runs.ts: the caps over the whole life of
-- a workspace's ledger, as a step relation of its gates, finishes and sweeps.
use ai_email_support_agent.Base.{
  ℕ, suc, ◌+◌, ◌≤◌, ◌<◌, Bool, true, false, none, some, List, [], ◌∷◌, ◌≡◌, refl, leb, ltb, ◌==◌,
  ◌&&◌, inl, inr, if◌then◌else◌, Bool-cases, Option-cases, arith,
}
use ai_email_support_agent.Core.Settings.{Value, resolve_setting, amount, daily_draft_cap}
use ai_email_support_agent.Core.Transitions.{AgentRunStatus, agent_run_eq, running}
use ai_email_support_agent.Db.Metering.{draft_runs}
use ai_email_support_agent.Db.Tables.{AgentRun}
use ai_email_support_agent.Worker.Gate.{
  GateParams, GateOutcome, Ledger, proceed, gate_and_record_run, record_run, ticket_cap, count,
  is_live, is_draft, for_ticket, draft_runs_for_ticket_today, utc_day, max_runs, meter_value,
  settle, finish_run, abort_older, mark_stuck_runs, per_org_draft_concurrency,
}
use ai_email_support_agent.Worker.Gate.Caps.{
  draft_in_day, count-le, count-snoc, meter_value-bump, gate_and_record_run-cases,
}

-- One transaction on the ledger. A gate that throws leaves it as it was.
pub data Step : Ledger → Ledger → Type 0 where
  gated :
      (p : GateParams) (s s' : Ledger) (o : GateOutcome)
      → gate_and_record_run p s ≡ inr (o, s')
      → Step s s'
  finished : (id : ℕ) (status : AgentRunStatus) (s : Ledger) → Step s (finish_run id status s).1
  swept : (older_than : ℕ) (s : Ledger) → Step s (mark_stuck_runs older_than s).1

pub data Steps : Ledger → Ledger → Type 0 where
  done : (s : Ledger) → Steps s s
  followed : (s s' s'' : Ledger) → Step s s' → Steps s' s'' → Steps s s''

-- Settling and sweeping write only the status of a run.
count-settle :
    (k day id : ℕ) (status : AgentRunStatus) (rs : List AgentRun)
    → count (draft_in_day k day) (settle id status rs).0 ≡ count (draft_in_day k day) rs
unfolding count settle
count-settle k day id status [] = refl
count-settle k day id status (r ∷ rs) =
    elim (Bool-cases (r.id == id && agent_run_eq r.status running)) [
      | inl hit ↦ rw hit refl
      | inr miss ↦ rw (miss, count-settle k day id status rs) refl
    ]

count-abort_older :
    (k day older_than : ℕ) (rs : List AgentRun)
    → count (draft_in_day k day) (abort_older older_than rs).0 ≡ count (draft_in_day k day) rs
unfolding count abort_older
count-abort_older k day older_than [] = refl
count-abort_older k day older_than (r ∷ rs) =
    elim (Bool-cases (agent_run_eq r.status running && ltb r.started_at older_than)) [
      | inl old ↦ rw (old, count-abort_older k day older_than rs) refl
      | inr young ↦ rw (young, count-abort_older k day older_than rs) refl
    ]

-- No ticket has more draft runs in a UTC day than AGENT_MAX_RUNS_PER_TICKET_PER_DAY.
abbrev pub Capped : Ledger → ℕ → ℕ → Type 0
Capped s k day = count (draft_in_day k day) s.runs ≤ max_runs

cap_room :
    (n : ℕ) (o : GateOutcome) → (if leb max_runs n then some o else none) ≡ none → n < max_runs
cap_room n o h = ground arith

-- A ticket below its cap has room for one run more in the gate's day.
room :
    (p : GateParams) (s : Ledger) (k : ℕ)
    → ticket_cap p.ticket_id p s ≡ none
    → for_ticket p.ticket_id k ≡ true
    → count (draft_in_day k (utc_day p.now)) s.runs < max_runs
unfolding ticket_cap draft_runs_for_ticket_today
room p s k t f = elim (Option-cases p.ticket_id) [
  | inl no_ticket ↦ let f' : false ≡ true = rw no_ticket at f in absurd (cc)
  | inr (j, is_j) ↦
      let below = count-le k p.now s.runs in
      let f' : (j == k) ≡ true = rw is_j at f in
      let same_ticket : j ≡ k = ground arith in
      let t' = rw (is_j, same_ticket) at t in omega (arith, below, cap_room _ _ t')
]

record_run-Capped :
    (p : GateParams) (s : Ledger) (k day : ℕ)
    → ticket_cap p.ticket_id p s ≡ none
    → Capped s k day
    → Capped (record_run p s).1 k day
unfolding record_run
record_run-Capped p s k day t c =
    elim (Bool-cases (is_draft p.kind && for_ticket p.ticket_id k && utc_day p.now == day)) [
      | inl counted ↦
          let same_day : utc_day p.now ≡ day = ground arith in
          let space = rw same_day at (room p s k t (ground arith)) in
          rw (count-snoc, counted) (omega (arith, space))
      | inr other ↦ rw (count-snoc, other) (omega (arith, c))
    ]

-- One transaction keeps the cap.
step-Capped : (s s' : Ledger) (k day : ℕ) → Step s s' → Capped s k day → Capped s' k day
unfolding finish_run mark_stuck_runs
step-Capped _ _ k day (gated p s s' o e) c = elim (gate_and_record_run-cases p s o s' e) [
  | inl (refused, same) ↦ rw same c
  | inr (a, granted, new) ↦ rw new (record_run-Capped p s k day a.ticket c)
]
step-Capped _ _ k day (finished id status s) c = rw count-settle c
step-Capped _ _ k day (swept older_than s) c = rw count-abort_older c

-- However a workspace's gates, finished runs and sweeps follow each other, at whatever times and with
-- whatever settings, no ticket ever gets more than three draft runs that start in one UTC day, if it
-- had no more before.
pub Steps-Capped : (s s' : Ledger) (k day : ℕ) → Steps s s' → Capped s k day → Capped s' k day
Steps-Capped _ _ k day (done s) c = c
Steps-Capped _ _ k day (followed s s' s'' one rest) c =
    Steps-Capped s' s'' k day rest (step-Capped s s' k day one c)

one_more : (n : ℕ) (b : Bool) → n < 2 → n + (if b then 1 else 0) ≤ 2
one_more n b h = ground arith

-- A run that a gate lets through is recorded as `running` from that moment, in the ledger with the
-- counter of its day raised by one; at that moment the workspace has at most two live draft runs, and the counter
-- is at most the draft cap that the settings resolve to.
pub gate_proceed-bounds :
    (p : GateParams) (s s' : Ledger) (n : ℕ)
    → gate_and_record_run p s ≡ inr (proceed n, s')
    → (count (is_live p.now) s'.runs ≤ per_org_draft_concurrency)
      × (meter_value (utc_day p.now) draft_runs s'.counters
          ≡ suc (meter_value (utc_day p.now) draft_runs s.counters))
      × (v : Value) × (resolve_setting daily_draft_cap p.settings.org p.settings.plan ≡ inr v)
      × (meter_value (utc_day p.now) draft_runs s'.counters ≤ amount v)
unfolding record_run
gate_proceed-bounds p s s' n e = elim (gate_and_record_run-cases p s (proceed n) s' e) [
  | inl (refused, same) ↦ absurd (cc)
  | inr (a, granted, new) ↦
      let (v, resolved, below) = a.drafts in
      let live = a.live in
      rw (new, meter_value-bump, count-snoc)
        (one_more _ _ live, omega arith, v, resolved, omega (arith, below))
]
