-- ===== src/Knowledge/Batching/Limits.antt =====
-- packages/knowledge/src/embed/batching.ts: the texts of the calls and their limits.
use mathlib.Core.List.{append_assoc, append-nil}
use ai_email_support_agent.Base.{
  ℕ, ◌+◌, ◌≤◌, ◌<◌, true, false, List, [], ◌∷◌, ◌++◌, ◌≡◌, refl, sym, ap, ◌∙◌, ◌⊎◌, inl, inr, arith,
  length, length-append, All, All-append, Bool-cases,
}
use ai_email_support_agent.Knowledge.Batching.{
  Text, estimate_tokens, BatchLimits, Packing, flush_list, flush, keep, too_big, no_room, pack,
  pack_all, batch_texts,
}

abbrev pub join : List (List Text) → List Text
join [] = []
join (b ∷ bs) = b ++ join bs

join-append : (bs cs : List (List Text)) → join (bs ++ cs) ≡ join bs ++ join cs
join-append [] cs = refl
join-append (b ∷ bs) cs = rw (join-append bs cs) (sym (append_assoc b (join bs) (join cs)))

join-snoc : (bs : List (List Text)) (b : List Text) → join (bs ++ b ∷ []) ≡ join bs ++ b
join-snoc bs b = join-append bs (b ∷ []) ∙ ap (λ l. join bs ++ l) (append-nil b)

unfoldable pub tokens_of : List Text → ℕ
tokens_of [] = 0
tokens_of (t ∷ ts) = estimate_tokens t + tokens_of ts

unfoldable pub chars_of : List Text → ℕ
chars_of [] = 0
chars_of (t ∷ ts) = length t + chars_of ts

tokens_of-snoc :
    (ts : List Text) (t : Text) → tokens_of (ts ++ t ∷ []) ≡ tokens_of ts + estimate_tokens t
unfolding tokens_of
tokens_of-snoc [] t = omega arith
tokens_of-snoc (u ∷ ts) t = omega (arith, tokens_of-snoc ts t)

chars_of-snoc : (ts : List Text) (t : Text) → chars_of (ts ++ t ∷ []) ≡ chars_of ts + length t
unfolding chars_of
chars_of-snoc [] t = omega arith
chars_of-snoc (u ∷ ts) t = omega (arith, chars_of-snoc ts t)

module _ (limits : BatchLimits) where
  -- The three ceilings of one call.
  pub record Fits (b : List Text) : Type 0 where
    pub texts : length b ≤ limits.max_texts
    pub tokens : tokens_of b ≤ limits.max_tokens
    pub chars : chars_of b ≤ limits.max_chars

  -- A batch is not empty, and fits, or is one text that is over a ceiling by itself.
  abbrev pub IsBatch : List Text → Type 0
  IsBatch b =
      (1 ≤ length b)
      × (Fits b
          ⊎ ((t : Text) × (b ≡ t ∷ [])
              × ((limits.max_tokens < estimate_tokens t) ⊎ (limits.max_chars < length t))))

  record Inv (done : List Text) (p : Packing) : Type 0 where
    joined : join p.batches ++ p.current ≡ done
    packed : All IsBatch p.batches
    fits : Fits p.current
    tokens : p.current_tokens ≡ tokens_of p.current
    chars : p.current_chars ≡ chars_of p.current

  empty-Fits : Fits []
  unfolding tokens_of chars_of
  empty-Fits = record { texts = omega arith; tokens = omega arith; chars = omega arith }

  -- After a flush nothing is pending.
  record Flushed (done : List Text) (p : Packing) : Type 0 where
    kept : Inv done p
    empty : p.current ≡ []

  flush_list-Inv :
      (done : List Text) (p : Packing) (ts : List Text)
      → p.current ≡ ts
      → Inv done p
      → Flushed done (flush_list ts p)
  unfolding flush_list
  flush_list-Inv done p [] e i = record { kept = i; empty = e }
  flush_list-Inv done p (t ∷ ts) e i = record {
    kept = record {
      joined =
          append-nil _
          ∙ join-snoc p.batches (t ∷ ts)
          ∙ ap (λ l. join p.batches ++ l) (sym e)
          ∙ i.joined;
      packed = All-append IsBatch p.batches _ i.packed ((omega arith, inl (rw e at i.fits)), tt);
      fits = empty-Fits;
      tokens = unfold tokens_of in refl;
      chars = unfold chars_of in refl;
    };
    empty = refl;
  }

  flush-Inv : (done : List Text) (p : Packing) → Inv done p → Flushed done (flush p)
  unfolding flush
  flush-Inv done p i = flush_list-Inv done p p.current refl i

  keep-Inv :
      (done : List Text) (text : Text) (p : Packing)
      → Inv done p
      → length p.current + 1 ≤ limits.max_texts
      → p.current_tokens + estimate_tokens text ≤ limits.max_tokens
      → p.current_chars + length text ≤ limits.max_chars
      → Inv (done ++ text ∷ []) (keep text (estimate_tokens text) p)
  keep-Inv done text p i a b c = record {
    joined =
        sym (append_assoc (join p.batches) p.current (text ∷ []))
        ∙ ap (λ l. l ++ text ∷ []) i.joined;
    packed = i.packed;
    fits = record {
      texts = omega (arith, length-append p.current (text ∷ []));
      tokens = omega (arith, tokens_of-snoc p.current text, i.tokens);
      chars = omega (arith, chars_of-snoc p.current text, i.chars);
    };
    tokens = omega (arith, tokens_of-snoc p.current text, i.tokens);
    chars = omega (arith, chars_of-snoc p.current text, i.chars);
  }

  single-Inv :
      (done : List Text) (text : Text) (p : Packing)
      → Flushed done p
      → too_big limits text ≡ true
      → Inv (done ++ text ∷ []) (record p { batches = p.batches ++ (text ∷ []) ∷ [] })
  single-Inv done text p f big = record {
    joined =
        ap (λ l. join (p.batches ++ (text ∷ []) ∷ []) ++ l) f.empty
        ∙ append-nil _
        ∙ join-snoc p.batches (text ∷ [])
        ∙ ap (λ l. l ++ text ∷ [])
            (sym (append-nil _) ∙ ap (λ l. join p.batches ++ l) (sym f.empty) ∙ f.kept.joined);
    packed =
        All-append IsBatch p.batches _ f.kept.packed
          ((omega arith, inr (text, refl, ground arith)), tt);
    fits = f.kept.fits;
    tokens = f.kept.tokens;
    chars = f.kept.chars;
  }

  Flushed-keep :
      (done : List Text) (text : Text) (p : Packing)
      → 1 ≤ limits.max_texts
      → Flushed done p
      → too_big limits text ≡ false
      → Inv (done ++ text ∷ []) (keep text (estimate_tokens text) p)
  Flushed-keep done text p one f small =
      let no_tokens : p.current_tokens ≡ 0 =
        f.kept.tokens ∙ ap tokens_of f.empty ∙ (unfold tokens_of in refl) in
      let no_chars : p.current_chars ≡ 0 =
        f.kept.chars ∙ ap chars_of f.empty ∙ (unfold chars_of in refl) in
      keep-Inv done text p f.kept (omega (arith, ap length f.empty)) (ground arith) (ground arith)

  pack-Inv :
      (done : List Text) (text : Text) (p : Packing)
      → 1 ≤ limits.max_texts
      → Inv done p
      → Inv (done ++ text ∷ []) (pack limits text p)
  unfolding pack
  pack-Inv done text p one i = elim (Bool-cases (too_big limits text)) [
    | inl big ↦ rw big (single-Inv done text (flush p) (flush-Inv done p i) big)
    | inr small ↦ elim (Bool-cases (no_room limits text p)) [
      | inl over ↦
          rw (small, over) (Flushed-keep done text (flush p) one (flush-Inv done p i) small)
      | inr room ↦
          rw (small, room) (keep-Inv done text p i (ground arith) (ground arith) (ground arith))
    ]
  ]

  pack_all-Inv :
      (done texts : List Text) (p : Packing)
      → 1 ≤ limits.max_texts
      → Inv done p
      → Inv (done ++ texts) (pack_all limits texts p)
  unfolding pack_all
  pack_all-Inv done [] p one i = rw append-nil i
  pack_all-Inv done (t ∷ ts) p one i =
      rw (← append_assoc done (t ∷ []) ts)
        (pack_all-Inv (done ++ t ∷ []) ts (pack limits t p) one (pack-Inv done t p one i))

  -- Provided that a call may hold one text: the calls hold every text once and in order, none is
  -- empty, and each is within the count, token and character ceilings, or is a single text that is
  -- over one of the two size ceilings by itself.
  pub batch_texts-IsBatch :
      (texts : List Text)
      → 1 ≤ limits.max_texts
      → (join (batch_texts limits texts) ≡ texts) × All IsBatch (batch_texts limits texts)
  unfolding batch_texts
  batch_texts-IsBatch texts one =
      let start : Packing = record {
        batches = [];
        current = [];
        current_tokens = 0;
        current_chars = 0;
      } in
      let i : Inv [] start = record {
        joined = refl;
        packed = tt;
        fits = empty-Fits;
        tokens = unfold tokens_of in refl;
        chars = unfold chars_of in refl;
      } in
      let f = flush-Inv texts (pack_all limits texts start) (pack_all-Inv [] texts start one i) in
      (
        sym (append-nil _)
            ∙ ap (λ l. join (flush (pack_all limits texts start)).batches ++ l) (sym f.empty)
            ∙ f.kept.joined,
        f.kept.packed,
      )
