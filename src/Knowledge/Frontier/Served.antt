-- ===== src/Knowledge/Frontier/Served.antt =====
-- packages/knowledge/src/crawler/frontier.ts: a crawl over a frontier, as any sequence of its calls.
use mathlib.Core.List.{append_assoc, append-nil}
use ai_email_support_agent.Base.{
  ℕ, ◌+◌, ◌≤◌, false, Option, none, some, List, [], ◌∷◌, ◌++◌, ◌≡◌, refl, sym, ap, ◌∙◌, arith, ◌||◌,
  length, length-append, Eq, same, has, Distinct, has-insert, Distinct-insert, Bool-cases, inl, inr,
}
use ai_email_support_agent.Knowledge.Frontier
use ai_email_support_agent.Knowledge.Frontier.{
  Frontier, Source, sitemap, link, full, push, serve, size, add_one,
}

pub data Call (U : Type 0) : Type 0 where
  call_add : List U → Source → Call U
  call_next : Call U

-- The frontier, and every URL that `next` has handed out.
pub record Crawl (U : Type 0) : Type 0 where
  pub frontier : Frontier U
  pub served : List U

abbrev serve_url : {U : Type 0} → Option U × Frontier U → List U → Crawl U
serve_url (none, f) served = record { frontier = f; served = served }
serve_url (some u, f) served = record { frontier = f; served = served ++ u ∷ [] }

module _ {U : Type 0} ⦃e : Eq U⦄ where
  abbrev pub pending : Frontier U → List U
  pending f = f.sitemap_queue ++ f.link_queue

  unfoldable pub step : Crawl U → Call U → Crawl U
  step c (Call.call_add urls source) = record c { frontier = Frontier.add c.frontier urls source }
  step c Call.call_next = serve_url (Frontier.next c.frontier) c.served

  unfoldable pub run : Crawl U → List (Call U) → Crawl U
  run c [] = c
  run c (call ∷ calls) = run (step c call) calls

  -- A crawl before its first call.
  abbrev pub start : Option ℕ → Crawl U
  start cap = record { frontier = Frontier.new cap; served = [] }

-- `none` is `Infinity`.
abbrev pub Within : Option ℕ → ℕ → Type 0
Within none n = Unit
Within (some cap) n = n ≤ cap

within : (cap : Option ℕ) (n : ℕ) → ((k : ℕ) → cap ≡ some k → n ≤ k) → Within cap n
within none n h = tt
within (some cap) n h = h cap refl

module _ {U : Type 0} ⦃e : Eq U⦄ (cap : Option ℕ) where
  -- Served and queued URLs are distinct, and are exactly the URLs seen.
  pub record Inv (served : List U) (f : Frontier U) : Type 0 where
    pub distinct : Distinct (served ++ pending f)
    pub covered : (u : U) → has (served ++ pending f) u ≡ has f.seen u
    pub counted : length f.seen ≡ length served + length (pending f)
    pub kept : f.max_seen ≡ cap
    pub bounded : (k : ℕ) → cap ≡ some k → length f.seen ≤ k

  regroup : (served s l : List U) (u : U) → served ++ ((s ++ u ∷ []) ++ l) ≡ (served ++ s) ++ u ∷ l
  regroup served s l u = simp append_assoc

  regroup_end :
      (served s l : List U) (u : U)
      → served ++ (s ++ (l ++ u ∷ [])) ≡ (served ++ (s ++ l)) ++ u ∷ []
  regroup_end served s l u = simp append_assoc

  has-snoc : (xs : List U) (a u : U) → has (xs ++ a ∷ []) u ≡ (same a u || has xs u)
  has-snoc xs a u = has-insert xs [] a u ∙ ap (λ l. same a u || has l u) (append-nil xs)

  -- A URL that was not seen joins the pending ones at some place.
  record Joined (served : List U) (f g : Frontier U) (u : U) : Type 0 where
    before : List U
    after : List U
    was : served ++ pending f ≡ before ++ after
    becomes : served ++ pending g ≡ before ++ u ∷ after

  push-Joined :
      (served : List U) (f : Frontier U) (source : Source) (u : U)
      → Joined served f (push f source u) u
  push-Joined served f sitemap u = record {
    before = served ++ f.sitemap_queue;
    after = f.link_queue;
    was = sym (append_assoc served f.sitemap_queue f.link_queue);
    becomes = regroup served f.sitemap_queue f.link_queue u;
  }
  push-Joined served f link u = record {
    before = served ++ pending f;
    after = [];
    was = sym (append-nil _);
    becomes = regroup_end served f.sitemap_queue f.link_queue u;
  }

  Joined-Inv :
      (served : List U) (f g : Frontier U) (u : U)
      → Inv served f
      → has f.seen u ≡ false
      → g.seen ≡ f.seen ++ u ∷ []
      → g.max_seen ≡ f.max_seen
      → full (length f.seen) f.max_seen ≡ false
      → Joined served f g u
      → Inv served g
  Joined-Inv served f g u i new grown kept room j = record {
    kept = kept ∙ i.kept;
    distinct = rw j.becomes (
        Distinct-insert j.before j.after u (rw j.was at i.distinct)
          (rw (← j.was) (i.covered u ∙ new)));
    covered = λ v.
        ap (λ l. has l v) j.becomes
        ∙ has-insert j.before j.after u v
        ∙ ap (λ b. same u v || b) (ap (λ l. has l v) (sym j.was) ∙ i.covered v)
        ∙ sym (ap (λ l. has l v) grown ∙ has-snoc f.seen u v);
    counted = omega (
      arith,
      ap length grown,
      length-append f.seen (u ∷ []),
      i.counted,
      ap length j.was,
      ap length j.becomes,
      length-append served (pending f),
      length-append served (pending g),
      length-append j.before j.after,
      length-append j.before (u ∷ j.after),
    );
    bounded =
        λ k e. ground (arith, ap length grown, length-append f.seen (u ∷ []), i.bounded k, i.kept);
  }

  push_seen :
      (f : Frontier U) (source : Source) (u : U) (seen : List U)
      → (push (record f { seen = seen }) source u).seen ≡ seen
  push_seen f sitemap u seen = refl
  push_seen f link u seen = refl

  push_max : (f : Frontier U) (source : Source) (u : U) → (push f source u).max_seen ≡ f.max_seen
  push_max f sitemap u = refl
  push_max f link u = refl

  pending-push :
      (f : Frontier U) (source : Source) (u : U) (seen : List U)
      → pending (push (record f { seen = seen }) source u) ≡ pending (push f source u)
  pending-push f sitemap u seen = refl
  pending-push f link u seen = refl

  add_one-Inv :
      (served : List U) (f : Frontier U) (source : Source) (u : U)
      → Inv served f
      → Inv served (add_one f source u)
  unfolding add_one
  add_one-Inv served f source u i =
      elim (Bool-cases (has f.seen u || full (length f.seen) f.max_seen)) [
        | inl skip ↦ rw skip i
        | inr take_it ↦ rw take_it (
            Joined-Inv served f _ u i (ground arith) (push_seen f source u _) (push_max _ source u)
              (ground arith)
              (let j = push-Joined served f source u in
                record {
                  before = j.before;
                  after = j.after;
                  was = j.was;
                  becomes = ap (λ l. served ++ l) (pending-push f source u _) ∙ j.becomes;
                }))
      ]

  add-Inv :
      (served : List U) (f : Frontier U) (urls : List U) (source : Source)
      → Inv served f
      → Inv served (Frontier.add f urls source)
  unfolding Frontier.add
  add-Inv served f [] source i = i
  add-Inv served f (u ∷ urls) source i =
      add-Inv served (add_one f source u) urls source (add_one-Inv served f source u i)

  -- A URL moves from the pending ones to the served ones.
  moved-Inv :
      (served : List U) (f g : Frontier U) (u : U)
      → Inv served f
      → pending f ≡ u ∷ pending g
      → g.seen ≡ f.seen
      → g.max_seen ≡ f.max_seen
      → Inv (served ++ u ∷ []) g
  moved-Inv served f g u i head same_seen kept =
      let line : (served ++ u ∷ []) ++ pending g ≡ served ++ pending f =
        append_assoc served (u ∷ []) (pending g) ∙ ap (λ l. served ++ l) (sym head) in
      record {
        distinct = rw line i.distinct;
        covered = λ v. ap (λ l. has l v) line ∙ i.covered v ∙ ap (λ l. has l v) (sym same_seen);
        counted =
            omega (
              arith,
              ap length same_seen,
              i.counted,
              ap length head,
              length-append served (u ∷ []),
            );
        bounded = λ k e. rw same_seen (i.bounded k e);
        kept = kept ∙ i.kept;
      }

  serve-Inv :
      (served : List U) (f : Frontier U) (s l : List U)
      → f.sitemap_queue ≡ s
      → f.link_queue ≡ l
      → Inv served f
      → let c = serve_url (serve s l f) served in Inv c.served c.frontier
  unfolding serve
  serve-Inv served f (u ∷ s) l p q i =
      moved-Inv served f _ u i (ap (λ k. k ++ f.link_queue) p) refl refl
  serve-Inv served f [] (u ∷ l) p q i = moved-Inv served f _ u i (cc) refl refl
  serve-Inv served f [] [] p q i = i

  step-Inv :
      (c : Crawl U) (call : Call U)
      → Inv c.served c.frontier
      → let d = step c call in Inv d.served d.frontier
  unfolding step Frontier.next
  step-Inv c (Call.call_add urls source) i = add-Inv c.served c.frontier urls source i
  step-Inv c Call.call_next i = serve-Inv c.served c.frontier _ _ refl refl i

  run-Inv :
      (c : Crawl U) (calls : List (Call U))
      → Inv c.served c.frontier
      → let d = run c calls in Inv d.served d.frontier
  unfolding run
  run-Inv c [] i = i
  run-Inv c (call ∷ calls) i = run-Inv (step c call) calls (step-Inv c call i)

  start-Inv : Inv [] (Frontier.new cap)
  unfolding Frontier.new
  start-Inv = record {
    distinct = tt;
    covered = λ u. refl;
    counted = omega arith;
    kept = refl;
    bounded = λ k e. omega arith;
  }

  -- Over any calls of `add` and `next`, no URL is handed out twice or while it is still queued, the
  -- URLs handed out and queued are exactly those ever admitted, none is lost, and no more than
  -- `maxSeen` are admitted.
  pub crawl-Inv :
      (calls : List (Call U))
      → let c = run (start cap) calls in
        Distinct (c.served ++ pending c.frontier)
        × ((u : U) → has (c.served ++ pending c.frontier) u ≡ has c.frontier.seen u)
        × (length c.frontier.seen ≡ length c.served + size c.frontier)
        × Within cap (length c.frontier.seen)
  unfolding size
  crawl-Inv calls =
      let c = run (start cap) calls in
      let i = run-Inv (start cap) calls start-Inv in
      (
        i.distinct,
        i.covered,
        i.counted
            ∙ ap (λ n. length c.served + n)
                (length-append c.frontier.sitemap_queue c.frontier.link_queue),
        within cap (length c.frontier.seen) i.bounded,
      )
