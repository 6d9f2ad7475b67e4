-- ===== src/Mail/Threading.antt =====
-- packages/mail/src/threading.ts: the `References` header of a reply. Message ids are keys of type
-- `Key`, compared by `===`; the set `seen` is the list of its members.

pub mod Shape
use ai_email_support_agent.Base.{
  ℕ, ◌-◌, Option, none, some, List, [], ◌∷◌, ◌++◌, if◌then◌else◌, leb, length, drop, Eq, has,
}

abbrev pub references_cap : ℕ
references_cap = 20

module _ {Key : Type 0} where
  -- `list.slice(-n)` for 0 < n
  abbrev pub slice_last : ℕ → List Key → List Key
  slice_last n xs = drop (length xs - n) xs

  -- `[ordered[0], ...ordered.slice(-(REFERENCES_CAP - 1))]`
  abbrev pub root_and_newest : List Key → List Key
  root_and_newest [] = []
  root_and_newest (root ∷ rest) = root ∷ slice_last 19 (root ∷ rest)

  unfoldable pub trim_references : List Key → List Key
  trim_references ordered =
      if leb (length ordered) references_cap then ordered else root_and_newest ordered

module _ {Key : Type 0} ⦃e : Eq Key⦄ where
  -- The loop over the thread's ids: `seen` holds the target and the ids kept so far.
  pub collect : List (Option Key) → List Key → List Key → List Key
  collect [] seen ordered = ordered
  collect (none ∷ ids) seen ordered = collect ids seen ordered
  collect (some id ∷ ids) seen ordered =
      let kept = collect ids (id ∷ seen) (ordered ++ id ∷ []) in
      let skipped = collect ids seen ordered in if has seen id then skipped else kept

  pub build_references : List (Option Key) → Key → List Key
  build_references prior_rfc_ids in_reply_to =
      trim_references (collect prior_rfc_ids (in_reply_to ∷ []) [] ++ in_reply_to ∷ [])
