-- ===== src/PaneTree/Closing.antt =====
-- Closing a pane (`removeLeaf`), seen on the list of leaves.
use connect_hub.Base.{
  ℕ, suc, length, ◌+◌, ◌*◌, ◌≤◌, ◌<◌, ◌≡◌, ◌≢◌, refl, sym, ap, ◌∙◌, String, Bool, List, [], ◌∷◌,
  ◌++◌, map, map-append, append_assoc, Option, none, some, arith, ◌==◌, if◌then◌else◌, is_some,
  maybe, occurs, hit, hit-true, hit-false, hit_le, Bool-cases, Option-cases, inl, inr, true, false,
  eq_iff, any, ◌||◌,
}
use connect_hub.PaneTree.{
  Direction, PaneLeaf, PaneNode, leaf, split, count_leaves, find_leaf, collect_leaves, remove_leaf,
}
use connect_hub.PaneTree.Leaves.{pane_ids, length-collect_leaves}

-- The first leaf called `p` is taken out.
abbrev pub drop_first : String → List PaneLeaf → List PaneLeaf
drop_first p [] = []
drop_first p (x ∷ xs) = let rest = drop_first p xs in if x.pane_id == p then xs else x ∷ rest

abbrev has : String → List PaneLeaf → Bool
has p [] = false
has p (x ∷ xs) = x.pane_id == p || has p xs

drop_first-append_has :
    (p : String) (xs ys : List PaneLeaf)
    → has p xs ≡ true
    → drop_first p (xs ++ ys) ≡ drop_first p xs ++ ys
drop_first-append_has p [] ys h = ground arith
drop_first-append_has p (x ∷ xs) ys h = ground (arith, drop_first-append_has p xs ys)

drop_first-append_hasnt :
    (p : String) (xs ys : List PaneLeaf)
    → has p xs ≡ false
    → drop_first p (xs ++ ys) ≡ xs ++ drop_first p ys
drop_first-append_hasnt p [] ys h = refl
drop_first-append_hasnt p (x ∷ xs) ys h = ground (arith, drop_first-append_hasnt p xs ys)

drop_first_hasnt : (p : String) (xs : List PaneLeaf) → has p xs ≡ false → drop_first p xs ≡ xs
drop_first_hasnt p [] h = refl
drop_first_hasnt p (x ∷ xs) h = ground (arith, drop_first_hasnt p xs)

has-append : (p : String) (xs ys : List PaneLeaf) → has p (xs ++ ys) ≡ (has p xs || has p ys)
has-append p [] ys = refl
has-append p (x ∷ xs) ys = ground (arith, has-append p xs ys)

module _ {W : Type 0} where
  has-find_leaf : (t : PaneNode W) (p : String) → has p (collect_leaves t) ≡ is_some (find_leaf t p)
  unfolding find_leaf collect_leaves
  has-find_leaf (leaf l) p = ground arith
  has-find_leaf (split s d r a b) p =
      rw (has-append p (collect_leaves a) (collect_leaves b))
        (ground (arith, has-find_leaf a p, has-find_leaf b p))

  abbrev pub leaves_of : Option (PaneNode W) → List PaneLeaf
  leaves_of none = []
  leaves_of (some t) = collect_leaves t

  leaves_of-in_a :
      (s : String) (d : Direction) (r : W) (b : PaneNode W) (o : Option (PaneNode W))
      → collect_leaves (maybe b (λ removed. split s d r removed b) o)
        ≡ leaves_of o ++ collect_leaves b
  unfolding collect_leaves
  leaves_of-in_a s d r b none = refl
  leaves_of-in_a s d r b (some a) = refl

  leaves_of-in_b :
      (s : String) (d : Direction) (r : W) (a : PaneNode W) (o : Option (PaneNode W))
      → collect_leaves (maybe a (λ removed. split s d r a removed) o)
        ≡ collect_leaves a ++ leaves_of o
  unfolding collect_leaves
  leaves_of-in_b s d r a none = sym (connect_hub.Base.append-nil _)
  leaves_of-in_b s d r a (some b) = refl

  -- Removing a leaf takes the first leaf of that identifier out of the list of leaves and
  -- leaves the others in their order; a tree of that leaf alone becomes nothing.
  pub collect_leaves-remove_leaf :
      (t : PaneNode W) (p : String) → leaves_of (remove_leaf t p) ≡ drop_first p (collect_leaves t)
  unfolding remove_leaf collect_leaves
  collect_leaves-remove_leaf (leaf l) p = ground arith
  collect_leaves-remove_leaf (split s d r a b) p = elim (Bool-cases (is_some (find_leaf a p))) [
    | inl in_a ↦
        rw
          (
            in_a,
            drop_first-append_has p (collect_leaves a) (collect_leaves b)
                (has-find_leaf a p ∙ in_a),
          )
          (leaves_of-in_a s d r b (remove_leaf a p)
            ∙ ap (λ ls. ls ++ collect_leaves b) (collect_leaves-remove_leaf a p))
    | inr not_a ↦
        rw
          (
            not_a,
            drop_first-append_hasnt p (collect_leaves a) (collect_leaves b)
                (has-find_leaf a p ∙ not_a),
          )
          (elim (Bool-cases (is_some (find_leaf b p))) [
            | inl in_b ↦ rw in_b (
                leaves_of-in_b s d r a (remove_leaf b p)
                ∙ ap (λ ls. collect_leaves a ++ ls) (collect_leaves-remove_leaf b p))
            | inr not_b ↦
                rw (not_b, drop_first_hasnt p (collect_leaves b) (has-find_leaf b p ∙ not_b))
          ])
  ]

-- Taking the first leaf called `p` out lowers the count of `p` by one, and no other count.
occurs-drop_first :
    (p x : String) (ls : List PaneLeaf)
    → has p ls ≡ true
    → occurs x (map (λ (l : PaneLeaf). l.pane_id) (drop_first p ls)) + hit p x
      ≡ occurs x (map (λ (l : PaneLeaf). l.pane_id) ls)
occurs-drop_first p x [] h = ground arith
occurs-drop_first p x (l ∷ ls) h = elim (Bool-cases (l.pane_id == p)) [
  | inl same ↦ let e : l.pane_id ≡ p = (eq_iff l.pane_id p).0 same in rw (same, e) (omega arith)
  | inr other ↦ rw other (omega (arith, occurs-drop_first p x ls (ground arith)))
]

length-drop_first :
    (p : String) (ls : List PaneLeaf) → has p ls ≡ true → suc (length (drop_first p ls)) ≡ length ls
length-drop_first p [] h = ground arith
length-drop_first p (l ∷ ls) h = ground (arith, length-drop_first p ls)

module _ {W : Type 0} where
  pub occurs-remove_leaf :
      (t u : PaneNode W) (p x : String)
      → is_some (find_leaf t p) ≡ true
      → remove_leaf t p ≡ some u
      → occurs x (pane_ids u) + hit p x ≡ occurs x (pane_ids t)
  occurs-remove_leaf t u p x found e =
      let same : collect_leaves u ≡ drop_first p (collect_leaves t) =
        ap leaves_of (sym e) ∙ collect_leaves-remove_leaf t p in
      rw same (occurs-drop_first p x (collect_leaves t) (has-find_leaf t p ∙ found))

  -- Closing a pane that is not there changes nothing.
  pub remove_leaf_absent :
      (t : PaneNode W) (p : String) → is_some (find_leaf t p) ≡ false → remove_leaf t p ≡ some t
  unfolding remove_leaf find_leaf
  remove_leaf_absent (leaf l) p h = ground arith
  remove_leaf_absent (split s d r a b) p h = ground arith

  -- A layout loses one pane by closing one.
  pub count_leaves-remove_leaf :
      (t u : PaneNode W) (p : String)
      → is_some (find_leaf t p) ≡ true
      → remove_leaf t p ≡ some u
      → suc (count_leaves u) ≡ count_leaves t
  count_leaves-remove_leaf t u p found e =
      let same : collect_leaves u ≡ drop_first p (collect_leaves t) =
        ap leaves_of (sym e) ∙ collect_leaves-remove_leaf t p in
      rw (length-collect_leaves u, length-collect_leaves t, same)
        (length-drop_first p (collect_leaves t) (has-find_leaf t p ∙ found))
