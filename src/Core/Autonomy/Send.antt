-- ===== src/Core/Autonomy/Send.antt =====
-- packages/core/src/autonomy.ts: when a reply is sent with nobody looking at it.
use ai_email_support_agent.Base.{
  Bool, true, false, Option, some, none, ◌≡◌, refl, ◌∙◌, ◌≤◌, ◌↔◌, arith,
}
use ai_email_support_agent.Core.Autonomy.{
  DecisionInput, Outcome, CategoryMode, send, ok, loud, below, decide, decide_auto,
}

module _ {N : Type 0} (lt : N → N → Bool) where
  -- What the ladder below the category gate asks of an input.
  pub record Earned (i : DecisionInput N) : Type 0 where
    pub first_draft : i.is_redraft ≡ false
    pub no_warning : i.guardrail.warning_count ≤ 0
    pub no_conflict : i.memory_conflict ≡ false
    pub all_resolved : i.unresolved_questions ≡ false
    pub short_thread : i.thread_too_long ≡ false
    pub warm : 10 ≤ i.human_decision_count
    pub enough :
        (e : N) × (t : N) × (i.evidence ≡ some e) × (i.threshold ≡ some t) × (lt e t ≡ false)
    pub no_attachment : i.has_attachments ≡ false
    pub allowance : i.allowance_exhausted ≡ false
    pub under_cap : i.auto_send_cap_reached ≡ false
    pub mailbox : i.mailbox_healthy ≡ true

  -- What the gates above it ask.
  pub record Cleared (i : DecisionInput N) : Type 0 where
    pub platform : i.platform_kill_switch ≡ false
    pub workspace : i.workspace_kill_switch ≡ false
    pub enabled : i.agent_enabled ≡ true
    pub active : i.agent_active ≡ true
    pub subscribed : i.subscription_active ≡ true
    pub no_tripwire : i.tripwire ≡ false
    pub replied : i.outcome ≡ Outcome.reply
    pub guarded : i.guardrail.ok ≡ true
    pub dmarc : i.dmarc_pass ≡ some true
    pub auto_mode : i.category_mode ≡ CategoryMode.auto

  enough_of_below :
      (e t : Option N)
      → below lt e t ≡ false
      → (a : N) × (b : N) × (e ≡ some a) × (t ≡ some b) × (lt a b ≡ false)
  unfolding below
  enough_of_below (some a) (some b) h = (a, b, refl, refl, h)
  enough_of_below (some a) none h = ground arith
  enough_of_below none t h = ground arith

  decide_auto-Earned : (i : DecisionInput N) → decide_auto lt i ≡ loud send ok → Earned i
  unfolding decide_auto
  decide_auto-Earned i h = record {
    first_draft = ground arith;
    no_warning = ground arith;
    no_conflict = ground arith;
    all_resolved = ground arith;
    short_thread = ground arith;
    warm = ground arith;
    enough = enough_of_below i.evidence i.threshold (ground arith);
    no_attachment = ground arith;
    allowance = ground arith;
    under_cap = ground arith;
    mailbox = ground arith;
  }

  decide_auto_of_Earned : (i : DecisionInput N) → Earned i → decide_auto lt i ≡ loud send ok
  unfolding decide_auto below
  decide_auto_of_Earned i h = let (e, t, p, q, r) = h.enough in ground (arith, p, q, r)

  decide-gates :
      (i : DecisionInput N)
      → decide lt i ≡ loud send ok
      → Cleared i × (decide_auto lt i ≡ loud send ok)
  unfolding decide
  decide-gates i h = (
    record {
      platform = ground arith;
      workspace = ground arith;
      enabled = ground arith;
      active = ground arith;
      subscribed = ground arith;
      no_tripwire = ground arith;
      replied = ground arith;
      guarded = ground arith;
      dmarc = ground arith;
      auto_mode = ground arith;
    },
    ground arith,
  )

  decide_of_Cleared : (i : DecisionInput N) → Cleared i → decide lt i ≡ decide_auto lt i
  unfolding decide
  decide_of_Cleared i h = ground arith

  -- A reply is sent with no review exactly when every gate above the category mode is clear, the
  -- mode is auto, and the evidence, history and capacity conditions of the auto ladder all hold.
  pub decide-send_iff :
      (i : DecisionInput N) → (decide lt i ≡ loud send ok) ↔ (Cleared i × Earned i)
  decide-send_iff i = (
    λ h. ((decide-gates i h).0, decide_auto-Earned i (decide-gates i h).1),
    λ h. decide_of_Cleared i h.0 ∙ decide_auto_of_Earned i h.1,
  )
