-- ===== src/Knowledge/Batching.antt =====
-- packages/knowledge/src/embed/batching.ts and packages/llm/src/core/tokens.ts: packing texts into
-- calls of the embedding provider. A text is the list of its UTF-16 code units.

pub mod Limits
use ai_email_support_agent.Base.{
  ℕ, ◌+◌, ◌/◌, Bool, List, [], ◌∷◌, ◌++◌, if◌then◌else◌, ◌||◌, leb, ltb, length,
}

abbrev pub Text : Type 0
Text = List ℕ

-- `Math.ceil(text.length / 4)`
unfoldable pub estimate_tokens : Text → ℕ
estimate_tokens text = (length text + 3) / 4

pub record BatchLimits : Type 0 where
  pub max_texts : ℕ
  pub max_tokens : ℕ
  pub max_chars : ℕ

abbrev pub default_limits : BatchLimits
default_limits = record { max_texts = 128; max_tokens = 100000; max_chars = 120000 }

-- The loop's variables.
pub record Packing : Type 0 where
  pub batches : List (List Text)
  pub current : List Text
  pub current_tokens : ℕ
  pub current_chars : ℕ

flush_list : List Text → Packing → Packing
flush_list [] p = p
flush_list (t ∷ ts) p = record {
  batches = p.batches ++ (t ∷ ts) ∷ [];
  current = [];
  current_tokens = 0;
  current_chars = 0;
}

unfoldable pub flush : Packing → Packing
unfolding flush_list
flush p = flush_list p.current p

-- `current.push(text)`, and the two sums.
abbrev pub keep : Text → ℕ → Packing → Packing
keep text tokens p = record {
  batches = p.batches;
  current = p.current ++ text ∷ [];
  current_tokens = p.current_tokens + tokens;
  current_chars = p.current_chars + length text;
}

module _ (limits : BatchLimits) where
  open limits use {max_texts, max_tokens, max_chars}

  abbrev pub too_big : Text → Bool
  too_big text = ltb max_tokens (estimate_tokens text) || ltb max_chars (length text)

  abbrev pub no_room : Text → Packing → Bool
  no_room text p =
      leb max_texts (length p.current)
      || ltb max_tokens (p.current_tokens + estimate_tokens text)
      || ltb max_chars (p.current_chars + length text)

  -- One round of the loop over the texts.
  unfoldable pub pack : Text → Packing → Packing
  pack text p =
      if too_big text
      then (let flushed = flush p in
          record flushed { batches = flushed.batches ++ (text ∷ []) ∷ [] })
      else keep text (estimate_tokens text) (if no_room text p then flush p else p)

  pack_all : List Text → Packing → Packing
  pack_all [] p = p
  pack_all (text ∷ texts) p = pack_all texts (pack text p)

  pub batch_texts : List Text → List (List Text)
  unfolding pack_all
  batch_texts texts =
      (flush (
        pack_all texts
          (record { batches = []; current = []; current_tokens = 0; current_chars = 0 }))).batches
