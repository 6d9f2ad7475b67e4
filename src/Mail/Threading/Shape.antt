-- ===== src/Mail/Threading/Shape.antt =====
-- packages/mail/src/threading.ts: the shape of the `References` header.
use mathlib.Core.List.{append-nil, append_assoc}
use ai_email_support_agent.Base.{
  ℕ, zero, suc, ◌-◌, ◌≤◌, ◌<◌, Bool, true, false, Option, none, some, List, [], ◌∷◌, ◌++◌, ◌≡◌,
  refl, sym, ap, ◌∙◌, if◌then◌else◌, take, take-append-drop, arith, ◌||◌, ◌⊎◌, inl, inr, length,
  length-append, length-drop, drop, leb, Eq, same, same→eq, same_refl, has, Distinct, Distinct-snoc,
  Distinct-drop, has-drop, has-append, Bool-cases,
}
use ai_email_support_agent.Mail.Threading.{
  root_and_newest, trim_references, collect, build_references,
}

module _ {Key : Type 0} ⦃e : Eq Key⦄ where
  abbrev pub drop_id : Key → List Key → List Key
  drop_id a [] = []
  drop_id a (x ∷ xs) = let rest = drop_id a xs in if same a x then rest else x ∷ rest

  -- The ids of a thread in its order, each where it stands first.
  abbrev pub first_ids : List (Option Key) → List Key
  first_ids [] = []
  first_ids (none ∷ ids) = first_ids ids
  first_ids (some id ∷ ids) = id ∷ drop_id id (first_ids ids)

  -- The thread a reply belongs to: its other ids, and then the one it answers.
  abbrev pub full_thread : List (Option Key) → Key → List Key
  full_thread prior target = drop_id target (first_ids prior) ++ target ∷ []

  abbrev without : List Key → List Key → List Key
  without seen [] = []
  without seen (x ∷ xs) = let rest = without seen xs in if has seen x then rest else x ∷ rest

  without_nil : (xs : List Key) → without [] xs ≡ xs
  without_nil [] = refl
  without_nil (x ∷ xs) = rw (without_nil xs)

  without-cons :
      (id : Key) (seen xs : List Key) → without (id ∷ seen) xs ≡ without seen (drop_id id xs)
  without-cons id seen [] = refl
  without-cons id seen (x ∷ xs) = elim (Bool-cases (same id x)) [
    | inl here ↦ rw (here, without-cons id seen xs)
    | inr there ↦ rw (there, without-cons id seen xs)
  ]

  without_known :
      (id : Key) (seen xs : List Key)
      → has seen id ≡ true
      → without seen (drop_id id xs) ≡ without seen xs
  without_known id seen [] h = refl
  without_known id seen (x ∷ xs) h = elim (Bool-cases (same id x)) [
    | inl here ↦
        let k : has seen x ≡ true = rw (← same→eq id x here) h in
        rw (here, k, without_known id seen xs h)
    | inr there ↦ rw (there, without_known id seen xs h)
  ]

  collect-first_ids :
      (ids : List (Option Key)) (seen ordered : List Key)
      → collect ids seen ordered ≡ ordered ++ without seen (first_ids ids)
  unfolding collect
  collect-first_ids [] seen ordered = sym (append-nil ordered)
  collect-first_ids (none ∷ ids) seen ordered = collect-first_ids ids seen ordered
  collect-first_ids (some id ∷ ids) seen ordered = elim (Bool-cases (has seen id)) [
    | inl old ↦
        rw (old, without_known id seen (first_ids ids) old) (collect-first_ids ids seen ordered)
    | inr new ↦
        rw
          (
            new,
            collect-first_ids ids (id ∷ seen) (ordered ++ id ∷ []),
            without-cons id seen (first_ids ids),
          )
          (append_assoc ordered (id ∷ []) (without seen (drop_id id (first_ids ids))))
  ]

  -- `null` ids are passed over.
  abbrev pub has_id : List (Option Key) → Key → Bool
  has_id [] a = false
  has_id (none ∷ ids) a = has_id ids a
  has_id (some id ∷ ids) a = same id a || has_id ids a

  -- What the loop keeps: `seen` is the target and the ids kept.
  record Inv (target : Key) (seen ordered : List Key) : Type 0 where
    distinct : Distinct ordered
    known : (a : Key) → has seen a ≡ (same target a || has ordered a)

  grown-Inv :
      (target : Key) (seen ordered : List Key) (id : Key)
      → Inv target seen ordered
      → has seen id ≡ false
      → Inv target (id ∷ seen) (ordered ++ id ∷ [])
  grown-Inv target seen ordered id i new = record {
    distinct = Distinct-snoc ordered id i.distinct (ground (arith, i.known id));
    known = λ a. ground (arith, i.known a, has-append ordered (id ∷ []) a);
  }

  -- The ids collected are distinct, none is the target, and they are the target's companions among
  -- the ids given and those kept before.
  pub record Collected (target : Key) (ids : List (Option Key)) (before after : List Key)
      : Type 0 where
    pub distinct : Distinct after
    pub fresh : has after target ≡ false
    pub members : (a : Key) → same target a ≡ false → has after a ≡ (has before a || has_id ids a)

  collect_lem :
      (target : Key) (ids : List (Option Key)) (seen ordered : List Key)
      → Inv target seen ordered
      → has ordered target ≡ false
      → Collected target ids ordered (collect ids seen ordered)
  unfolding collect
  collect_lem target [] seen ordered i f = record {
    distinct = i.distinct;
    fresh = f;
    members = λ a h. ground arith;
  }
  collect_lem target (none ∷ ids) seen ordered i f =
      let c = collect_lem target ids seen ordered i f in
      record { distinct = c.distinct; fresh = c.fresh; members = c.members }
  collect_lem target (some id ∷ ids) seen ordered i f = elim (Bool-cases (has seen id)) [
    | inl old ↦
        let c = collect_lem target ids seen ordered i f in
        rw old (record {
          distinct = c.distinct;
          fresh = c.fresh;
          members = λ a h. ground (arith, c.members a h, i.known id, same→eq id a);
        })
    | inr new ↦
        let c =
          collect_lem target ids (id ∷ seen) (ordered ++ id ∷ [])
            (grown-Inv target seen ordered id i new)
            (ground (
              arith,
              has-append ordered (id ∷ []) target,
              i.known id,
              same→eq id target,
              same_refl target,
            )) in
        rw new (record {
          distinct = c.distinct;
          fresh = c.fresh;
          members = λ a h. ground (arith, c.members a h, has-append ordered (id ∷ []) a);
        })
  ]

  drop-snoc :
      (n : ℕ) (xs : List Key) (t : Key)
      → n ≤ length xs
      → drop n (xs ++ t ∷ []) ≡ drop n xs ++ t ∷ []
  drop-snoc zero xs t h = refl
  drop-snoc (suc n) [] t h = absurd (omega arith)
  drop-snoc (suc n) (x ∷ xs) t h = drop-snoc n xs t (omega arith)

  -- What is kept of a list of ids that ends in the target.
  pub record Trimmed (full : List Key) (target : Key) (r : List Key) : Type 0 where
    pub distinct : Distinct r
    pub short : length r ≤ 20
    pub target_last : (init : List Key) × (r ≡ init ++ target ∷ [])
    pub shape :
        (length full ≤ 20) × (r ≡ full)
        ⊎ (20 < length full)
          × (root : Key) × (middle : List Key) × (newest : List Key) × (full
              ≡ root ∷ middle ++ newest)
          × (length newest ≡ 19)
          × (r ≡ root ∷ newest)

  trim_long :
      (root : Key) (xs : List Key) (t : Key)
      → Distinct (root ∷ xs ++ t ∷ [])
      → 20 < length (root ∷ xs ++ t ∷ [])
      → Trimmed (root ∷ xs ++ t ∷ []) t (root_and_newest (root ∷ xs ++ t ∷ []))
  trim_long root xs t d h =
      let n : ℕ = length (xs ++ t ∷ []) - 19 in
      let e : length (root ∷ xs ++ t ∷ []) - 19 ≡ suc n = omega arith in
      let tail_eq : drop n (xs ++ t ∷ []) ≡ drop n xs ++ t ∷ [] =
        drop-snoc n xs t (omega (arith, length-append xs (t ∷ []))) in
      rw e (record {
        distinct = (has-drop n (xs ++ t ∷ []) root d.0, Distinct-drop n (xs ++ t ∷ []) d.1);
        short = omega (arith, length-drop n (xs ++ t ∷ []));
        target_last = (root ∷ drop n xs, ap (λ l. root ∷ l) tail_eq);
        shape = inr (
          h,
          root,
          take n (xs ++ t ∷ []),
          drop n (xs ++ t ∷ []),
          ap (λ l. root ∷ l) (sym (take-append-drop n (xs ++ t ∷ []))),
          omega (arith, length-drop n (xs ++ t ∷ [])),
          refl,
        );
      })

  long-Trimmed :
      (kept : List Key) (t : Key)
      → Distinct (kept ++ t ∷ [])
      → leb (length (kept ++ t ∷ [])) 20 ≡ false
      → Trimmed (kept ++ t ∷ []) t (root_and_newest (kept ++ t ∷ []))
  long-Trimmed [] t d h = cc
  long-Trimmed (root ∷ xs) t d h = trim_long root xs t d (ground arith)

  trim-Trimmed :
      (kept : List Key) (t : Key)
      → Distinct (kept ++ t ∷ [])
      → Trimmed (kept ++ t ∷ []) t (trim_references (kept ++ t ∷ []))
  unfolding trim_references
  trim-Trimmed kept t d = elim (Bool-cases (leb (length (kept ++ t ∷ [])) 20)) [
    | inl short ↦ rw short (record {
      distinct = d;
      short = ground arith;
      target_last = (kept, refl);
      shape = inl (ground arith, refl);
    })
    | inr long ↦ rw long (long-Trimmed kept t d long)
  ]

  kept-thread :
      (prior : List (Option Key)) (target : Key)
      → collect prior (target ∷ []) [] ≡ drop_id target (first_ids prior)
  kept-thread prior target =
      collect-first_ids prior (target ∷ []) []
      ∙ without-cons target [] (first_ids prior)
      ∙ without_nil (drop_id target (first_ids prior))

  -- The header of a reply has no id twice, at most 20 ids, and the message answered last. It is the
  -- thread's ids in their order, each once, with the one answered moved to the end, while these are at
  -- most 20; of a longer thread it is the root and then the 19 newest.
  pub build_references-Trimmed :
      (prior : List (Option Key)) (target : Key)
      → Trimmed (full_thread prior target) target (build_references prior target)
  unfolding build_references
  build_references-Trimmed prior target =
      let c =
        collect_lem target prior (target ∷ []) [] (record { distinct = tt; known = λ a. refl })
          refl in
      let kept = collect prior (target ∷ []) [] in
      rw (← kept-thread prior target)
        (trim-Trimmed kept target (Distinct-snoc kept target c.distinct c.fresh))
