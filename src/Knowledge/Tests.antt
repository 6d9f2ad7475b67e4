-- ===== src/Knowledge/Tests.antt =====
-- packages/knowledge/src: runs of the frontier and of the packing on concrete inputs.
use ai_email_support_agent.Base.{
  ℕ, ◌+◌, some, List, [], ◌∷◌, ◌++◌, ◌≡◌, length, All, Distinct, has, nat_eq, replicate, arith,
}
use ai_email_support_agent.Knowledge.Frontier.{Source, size}
use ai_email_support_agent.Knowledge.Frontier.Served.{Call, run, start, pending, Within, crawl-Inv}
use ai_email_support_agent.Knowledge.Batching.{Text, BatchLimits, batch_texts}
use ai_email_support_agent.Knowledge.Batching.Limits.{join, IsBatch, batch_texts-IsBatch}

-- A cap of three URLs, one URL given twice and one too many.
abbrev calls : List (Call ℕ)
calls =
    Call.call_add (1 ∷ 2 ∷ 1 ∷ []) Source.link
    ∷ Call.call_next
    ∷ Call.call_add (7 ∷ 8 ∷ []) Source.sitemap
    ∷ Call.call_next
    ∷ []

crawl-Inv_example :
    let c = run (start (some 3)) calls in
    Distinct (c.served ++ pending c.frontier)
    × ((u : ℕ) → has (c.served ++ pending c.frontier) u ≡ has c.frontier.seen u)
    × (length c.frontier.seen ≡ length c.served + size c.frontier)
    × Within (some 3) (length c.frontier.seen)
crawl-Inv_example = crawl-Inv (some 3) calls

abbrev tight : BatchLimits
tight = record { max_texts = 2; max_tokens = 3; max_chars = 9 }

abbrev texts : List Text
texts = replicate 4 97 ∷ replicate 5 98 ∷ replicate 20 99 ∷ replicate 1 100 ∷ []

batch_texts-IsBatch_example :
    (join (batch_texts tight texts) ≡ texts) × All (IsBatch tight) (batch_texts tight texts)
batch_texts-IsBatch_example = batch_texts-IsBatch tight texts (omega arith)
