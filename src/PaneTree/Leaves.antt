-- ===== src/PaneTree/Leaves.antt =====
-- The leaves of a layout, as a list: what `countLeaves` and `findLeaf` mean by it.
use connect_hub.Base.{
  ℕ, ◌+◌, ◌≤◌, ◌≡◌, refl, String, List, [], ◌∷◌, ◌++◌, map, map-append, Option, none, some, arith,
  ◌==◌, if◌then◌else◌, is_some, or_else, find, length, length-append, occurs, occurs-append, hit,
  hit-true, hit-false, Bool-cases, inl, inr, true, false, ◌↔◌, ◌<◌, hit_le,
}
use connect_hub.PaneTree.{
  Direction, PaneLeaf, PaneNode, leaf, split, count_leaves, find_leaf, collect_leaves,
}

find-append {ℓ} :
    {A : Type ℓ} (p : A → connect_hub.Base.Bool) (xs ys : List A)
    → find p (xs ++ ys) ≡ or_else (find p xs) (find p ys)
find-append p [] ys = refl
find-append p (x ∷ xs) ys = ground (arith, find-append p xs ys)

module _ {W : Type 0} where
  abbrev pub pane_ids : PaneNode W → List String
  pane_ids t = map (λ (l : PaneLeaf). l.pane_id) (collect_leaves t)

  -- Looking a pane up in the tree is looking for the first of that identifier in the list of
  -- leaves.
  pub find_leaf-collect_leaves :
      (t : PaneNode W) (pane_id : String)
      → find_leaf t pane_id ≡ find (λ (l : PaneLeaf). l.pane_id == pane_id) (collect_leaves t)
  unfolding find_leaf collect_leaves
  find_leaf-collect_leaves (leaf l) pane_id = refl
  find_leaf-collect_leaves (split s d r a b) pane_id =
      rw
        (find-append (λ (l : PaneLeaf). l.pane_id == pane_id) (collect_leaves a) (collect_leaves b))
        (rw (find_leaf-collect_leaves a pane_id, find_leaf-collect_leaves b pane_id))

  -- The number of leaves counted is the length of the list of leaves.
  pub length-collect_leaves : (t : PaneNode W) → count_leaves t ≡ length (collect_leaves t)
  unfolding count_leaves collect_leaves
  length-collect_leaves (leaf l) = refl
  length-collect_leaves (split s d r a b) = omega (
    arith,
    length-append (collect_leaves a) (collect_leaves b),
    length-collect_leaves a,
    length-collect_leaves b,
  )

  pub count_leaves_pos : (t : PaneNode W) → 0 < count_leaves t
  unfolding count_leaves
  count_leaves_pos (leaf l) = omega arith
  count_leaves_pos (split s d r a b) = omega (arith, count_leaves_pos a)

find_present :
    (p : String) (xs : List PaneLeaf)
    → is_some (find (λ (l : PaneLeaf). l.pane_id == p) xs) ≡ true
    → 0 < occurs p (map (λ (l : PaneLeaf). l.pane_id) xs)
find_present p [] h = ground arith
find_present p (x ∷ xs) h = ground (arith, find_present p xs, hit-true x.pane_id p)

find_absent :
    (p : String) (xs : List PaneLeaf)
    → is_some (find (λ (l : PaneLeaf). l.pane_id == p) xs) ≡ false
    → occurs p (map (λ (l : PaneLeaf). l.pane_id) xs) ≡ 0
find_absent p [] h = refl
find_absent p (x ∷ xs) h = ground (arith, find_absent p xs, hit-false x.pane_id p)

module _ {W : Type 0} where
  -- A leaf is found exactly when its identifier occurs.
  pub find_leaf_present :
      (t : PaneNode W) (p : String) → is_some (find_leaf t p) ≡ true → 0 < occurs p (pane_ids t)
  find_leaf_present t p h =
      find_present p (collect_leaves t) (rw (find_leaf-collect_leaves t p) at h)

  pub find_leaf_absent :
      (t : PaneNode W) (p : String) → is_some (find_leaf t p) ≡ false → occurs p (pane_ids t) ≡ 0
  find_leaf_absent t p h = find_absent p (collect_leaves t) (rw (find_leaf-collect_leaves t p) at h)

  pub find_leaf_of_occurs_pos :
      (t : PaneNode W) (p : String) → 0 < occurs p (pane_ids t) → is_some (find_leaf t p) ≡ true
  find_leaf_of_occurs_pos t p h = elim (Bool-cases (is_some (find_leaf t p))) [
    | inl found ↦ found
    | inr missed ↦ absurd (omega (arith, find_leaf_absent t p missed))
  ]

  pub find_leaf_of_occurs_zero :
      (t : PaneNode W) (p : String) → occurs p (pane_ids t) ≡ 0 → is_some (find_leaf t p) ≡ false
  find_leaf_of_occurs_zero t p h = elim (Bool-cases (is_some (find_leaf t p))) [
    | inl found ↦ absurd (omega (arith, find_leaf_present t p found))
    | inr missed ↦ missed
  ]

  pub occurs-split :
      (x s : String) (d : Direction) (r : W) (a b : PaneNode W)
      → occurs x (pane_ids (split s d r a b)) ≡ occurs x (pane_ids a) + occurs x (pane_ids b)
  unfolding collect_leaves
  occurs-split x s d r a b =
      rw (map-append (λ (l : PaneLeaf). l.pane_id) (collect_leaves a) (collect_leaves b))
        (occurs-append x (pane_ids a) (pane_ids b))
