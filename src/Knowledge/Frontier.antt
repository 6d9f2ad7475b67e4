-- ===== src/Knowledge/Frontier.antt =====
-- packages/knowledge/src/crawler/frontier.ts: the crawl's queue of URLs. A URL is a key of type `U`,
-- compared by `===`; the set `seen` is the list of its members, in insertion order.

pub mod Served
use ai_email_support_agent.Base.{
  ℕ, ◌+◌, Bool, false, Option, none, some, List, [], ◌∷◌, ◌++◌, if◌then◌else◌, ◌||◌, leb, length,
  Eq, has,
}

pub data Source : Type 0 where
  sitemap link : Source

-- `max_seen` is `none` for `Infinity`.
pub record Frontier (U : Type 0) : Type 0 where
  pub sitemap_queue : List U
  pub link_queue : List U
  pub max_seen : Option ℕ
  pub seen : List U

-- `seen.size >= maxSeen`
abbrev pub full : ℕ → Option ℕ → Bool
full size none = false
full size (some cap) = leb cap size

module _ {U : Type 0} where
  unfoldable pub new : Option ℕ → Frontier U
  new max_seen = record { sitemap_queue = []; link_queue = []; max_seen = max_seen; seen = [] }

  -- `queue.push(url)`, on the queue that the source selects.
  abbrev pub push : Frontier U → Source → U → Frontier U
  push f sitemap url = record f { sitemap_queue = f.sitemap_queue ++ url ∷ [] }
  push f link url = record f { link_queue = f.link_queue ++ url ∷ [] }

  serve : List U → List U → Frontier U → Option U × Frontier U
  serve (url ∷ rest) links f = (some url, record f { sitemap_queue = rest })
  serve [] (url ∷ rest) f = (some url, record f { link_queue = rest })
  serve [] [] f = (none, f)

  unfoldable pub next : Frontier U → Option U × Frontier U
  unfolding serve
  next f = serve f.sitemap_queue f.link_queue f

  unfoldable pub size : Frontier U → ℕ
  size f = length f.sitemap_queue + length f.link_queue

module _ {U : Type 0} ⦃e : Eq U⦄ where
  -- One round of the loop of `add`.
  pub add_one : Frontier U → Source → U → Frontier U
  add_one f source url =
      if has f.seen url || full (length f.seen) f.max_seen
      then f
      else push (record f { seen = f.seen ++ url ∷ [] }) source url

  pub add : Frontier U → List U → Source → Frontier U
  add f [] source = f
  add f (url ∷ urls) source = add (add_one f source url) urls source
