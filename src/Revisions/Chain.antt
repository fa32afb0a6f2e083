-- ===== src/Revisions/Chain.antt =====
-- What the walk of `_build_graph` from the head down has gone through.
use shadowops.Prelude.{
  ℕ, zero, suc, ◌+◌, ◌≤◌, ◌≡◌, ◌≢◌, refl, sym, ap, subst, ◌∙◌, ◌⊎◌, inl, inr, String, false, Option,
  none, some, List, [], ◌∷◌, length, str_eq, find_where-none, any_where, count_where,
  count_where_all, Bool-cases, Option-cases, arith,
}
use shadowops.Search.{text_in, one_fewer}
use shadowops.Revisions.{RevisionNode, node_at, is_known, walk, only_parent}
use shadowops.Revisions.Answers.{unmet}

module _ (d : List RevisionNode) where
  -- The parent of `below` is `above` and nothing else.
  pub record Follows (above below : String) : Type 0 where
    pub node : RevisionNode
    pub found : node_at d below ≡ some node
    pub parent : node.parent_ids ≡ above ∷ []

  -- Each revision of a chain follows the one before it.
  abbrev pub Linked : List String → Type 0
  Linked [] = Unit
  Linked (above ∷ []) = Unit
  Linked (above ∷ below ∷ rest) = Follows above below × Linked (below ∷ rest)

  -- The last of a chain.
  abbrev pub EndsWith : String → List String → Type 0
  EndsWith r [] = ⊥
  EndsWith r (x ∷ []) = x ≡ r
  EndsWith r (x ∷ y ∷ rest) = EndsWith r (y ∷ rest)

  -- Where the walk goes on from the first of `seen`.
  abbrev Continues : Option String → List String → Type 0
  Continues current [] = Unit
  Continues current (x ∷ rest) =
      (n : RevisionNode) × (node_at d x ≡ some n) × (current ≡ only_parent d n.parent_ids)

  only_parent-some : (l : List String) {p : String} → only_parent d l ≡ some p → l ≡ p ∷ []
  unfolding only_parent
  only_parent-some [] h = absurd (cc)
  only_parent-some (x ∷ []) h = ground (arith, h)
  only_parent-some (x ∷ y ∷ l) h = absurd (cc)

  -- The first of a chain is a revision of the graph, whose only parent, if there is one, is unknown.
  pub record Begins (seen : List String) : Type 0 where
    pub first : String
    pub rest : List String
    pub is_first : seen ≡ first ∷ rest
    pub node : RevisionNode
    pub found : node_at d first ≡ some node
    pub stops : (p : String) → node.parent_ids ≡ p ∷ [] → is_known d p ≡ false

  -- What holds of `seen` all along.
  record Walked (head : String) (current : Option String) (seen : List String) : Type 0 where
    linked : Linked seen
    ends : ((seen ≡ []) × (current ≡ some head)) ⊎ EndsWith head seen
    continues : Continues current seen
    counted : count_where (unmet d seen) d + length seen ≡ length d

  -- What the walk has gone through where it ends without coming back.
  pub record Ended (head : String) (seen : List String) : Type 0 where
    pub linked : Linked seen
    pub ends : EndsWith head seen
    pub begins : Begins seen
    pub counted : count_where (unmet d seen) d + length seen ≡ length d

  module _ (head : String)
      (once : (k : String) → count_where (λ n. str_eq n.revision k) d ≤ 1) where
    next_Walked :
        (k : String) (seen : List String) (node : RevisionNode)
        → Walked head (some k) seen
        → node_at d k ≡ some node
        → text_in k seen ≡ false
        → Walked head (only_parent d node.parent_ids) (k ∷ seen)
    next_Walked k [] node w found new = record {
      linked = tt;
      ends = inr (elim w.ends [ inl (e, q) ↦ ground (arith, q) | inr f ↦ absurd f ]);
      continues = (node, found, refl);
      counted = omega (
        arith,
        w.counted,
        one_fewer (λ (n : RevisionNode). n.revision) d k [] (once k) found new,
      );
    }
    next_Walked k (x ∷ rest) node w found new = record {
      linked =
          let (n, f, q) = w.continues in
          (
            record { node = n; found = f; parent = only_parent-some n.parent_ids (sym q) },
            w.linked,
          );
      ends = inr (elim w.ends [ inl (e, q) ↦ absurd (ground (arith, e)) | inr f ↦ f ]);
      continues = (node, found, refl);
      counted = omega (
        arith,
        w.counted,
        one_fewer (λ (n : RevisionNode). n.revision) d k (x ∷ rest) (once k) found new,
      );
    }

    -- Where the walk may stop.
    Stops : Option String → Type 0
    Stops current = (p : String) → current ≡ some p → is_known d p ≡ false

    stopped :
        (current : Option String) (seen : List String)
        → Walked head current seen
        → Stops current
        → Ended head seen ⊎ ((seen ≡ []) × (is_known d head ≡ false))
    unfolding Stops only_parent
    stopped current [] w stops = elim w.ends [
      | inl (e, q) ↦ inr (refl, stops head q)
      | inr f ↦ absurd f
    ]
    stopped current (x ∷ rest) w stops =
        let (n, f, q) = w.continues in
        inl (record {
          linked = w.linked;
          ends = elim w.ends [ inl (e, q) ↦ absurd (ground (arith, e)) | inr g ↦ g ];
          begins = record {
            first = x;
            rest = rest;
            is_first = refl;
            node = n;
            found = f;
            stops = λ p e. stops p (q ∙ ap (only_parent d) e);
          };
          counted = w.counted;
        })

    walk_on :
        (fuel : ℕ) (current : Option String) (seen seen' : List String)
        → Walked head current seen
        → walk d fuel current seen ≡ some (seen', false)
        → Ended head seen' ⊎ ((seen' ≡ []) × (is_known d head ≡ false))
    unfolding walk Stops
    walk_on zero current seen seen' w h = absurd (cc)
    walk_on (suc fuel) none seen seen' w h =
        subst (λ l. Ended head l ⊎ ((l ≡ []) × (is_known d head ≡ false))) (ground (arith, h))
          (stopped none seen w (λ p e. absurd (ground (arith, e))))
    walk_on (suc fuel) (some k) seen seen' w h = elim (Option-cases (node_at d k)) [
      | inl n ↦
          subst (λ l. Ended head l ⊎ ((l ≡ []) × (is_known d head ≡ false)))
            (ground (arith, rw (walk, n) at h))
            (stopped (some k) seen w (λ p e.
              subst (λ r. is_known d r ≡ false) (ground (arith, e)) (find_where-none _ d n)))
      | inr (node, n) ↦ elim (Bool-cases (text_in k seen)) [
        | inl e ↦ absurd (ground (arith, rw (walk, n, e) at h))
        | inr e ↦
            walk_on fuel (only_parent d node.parent_ids) (k ∷ seen) seen'
              (next_Walked k seen node w n e) (rw (walk, n, e) at h)
      ]
    ]

    -- A walk that goes somewhere and does not come back ends at a root.
    pub walk-Ended :
        (fuel : ℕ) (seen : List String)
        → seen ≢ []
        → walk d fuel (some head) [] ≡ some (seen, false)
        → Ended head seen
    unfolding any_where
    walk-Ended fuel seen gone h =
        let start : Walked head (some head) [] = record {
          linked = tt;
          ends = inl (refl, refl);
          continues = tt;
          counted = omega (arith, count_where_all (unmet d []) d (λ n. refl));
        } in
        elim (walk_on fuel (some head) [] seen start h) [
          | inl e ↦ e
          | inr (e, unknown) ↦ absurd (gone e)
        ]
