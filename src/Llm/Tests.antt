-- ===== src/Llm/Tests.antt =====
-- packages/llm/src: runs on concrete inputs.
use ai_email_support_agent.Base.{List, [], ◌∷◌}
use ai_email_support_agent.Llm.Limiter.Fifo.{
  Call, call_acquire, call_release, Fair, run, fresh, limiter-Fair,
}

-- Three callers for two slots; the first releases twice.
abbrev calls : List Call
calls =
    call_acquire
    ∷ call_acquire
    ∷ call_acquire
    ∷ call_release 0
    ∷ call_release 0
    ∷ call_release 1
    ∷ []

limiter-Fair_example : Fair 2 (run 2 fresh calls)
limiter-Fair_example = limiter-Fair 2 calls
