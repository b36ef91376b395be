-- ===== src/PaneTree/Splitting.antt =====
-- Splitting a pane (`splitLeaf`), seen on the list of leaves, and its round trip with closing.
use connect_hub.Base.{
  ℕ, length, ◌+◌, ◌*◌, ◌≤◌, ◌≡◌, refl, String, List, [], ◌∷◌, ◌++◌, map, some, arith, ◌==◌,
  if◌then◌else◌, is_some, occurs, hit, hit-true, hit-false, hit_zero, Bool-cases, inl, inr, true,
  false, eq_iff,
}
use connect_hub.Number.{Number}
use connect_hub.Bridge.{Host}
use connect_hub.PaneTree.{
  Direction, PaneLeaf, PaneNode, leaf, split, count_leaves, find_leaf, collect_leaves, remove_leaf,
  split_leaf,
}
use connect_hub.PaneTree.Leaves.{
  pane_ids, length-collect_leaves, find_leaf_present, find_leaf_of_occurs_pos,
  find_leaf_of_occurs_zero, occurs-split,
}

-- Every leaf called `p` is followed by the leaf `new`.
abbrev pub insert_after : String → PaneLeaf → List PaneLeaf → List PaneLeaf
insert_after p new [] = []
insert_after p new (x ∷ xs) =
    let rest = insert_after p new xs in if x.pane_id == p then x ∷ new ∷ rest else x ∷ rest

insert_after-append :
    (p : String) (new : PaneLeaf) (xs ys : List PaneLeaf)
    → insert_after p new (xs ++ ys) ≡ insert_after p new xs ++ insert_after p new ys
insert_after-append p new [] ys = refl
insert_after-append p new (x ∷ xs) ys = ground (arith, insert_after-append p new xs ys)

abbrev ids_of : List PaneLeaf → List String
ids_of ls = map (λ (l : PaneLeaf). l.pane_id) ls

occurs-insert_after :
    (p x : String) (new : PaneLeaf) (ls : List PaneLeaf)
    → occurs x (ids_of (insert_after p new ls))
      ≡ occurs x (ids_of ls) + occurs p (ids_of ls) * hit new.pane_id x
occurs-insert_after p x new [] = omega arith
occurs-insert_after p x new (l ∷ ls) = elim (Bool-cases (l.pane_id == p)) [
  | inl same ↦ rw (same, hit-true l.pane_id p same) (omega (arith, occurs-insert_after p x new ls))
  | inr other ↦
      rw (other, hit-false l.pane_id p other) (omega (arith, occurs-insert_after p x new ls))
]

length-insert_after :
    (p : String) (new : PaneLeaf) (ls : List PaneLeaf)
    → length (insert_after p new ls) ≡ length ls + occurs p (ids_of ls)
length-insert_after p new [] = omega arith
length-insert_after p new (l ∷ ls) = elim (Bool-cases (l.pane_id == p)) [
  | inl same ↦ rw (same, hit-true l.pane_id p same) (omega (arith, length-insert_after p new ls))
  | inr other ↦
      rw (other, hit-false l.pane_id p other) (omega (arith, length-insert_after p new ls))
]

module _ {W : Type 0} ⦃num : Number W⦄ (uuid : ℕ → String) where
  -- Splitting a pane puts the new leaf directly behind it in the list of leaves, and leaves
  -- the others in their order.
  pub collect_leaves-split_leaf :
      (drawn : ℕ) (t : PaneNode W) (p : String) (d : Direction) (q : String) (h : Host)
      → collect_leaves (split_leaf uuid drawn t p d q h).0
        ≡ insert_after p (record { pane_id = q; host = h }) (collect_leaves t)
  unfolding split_leaf collect_leaves
  collect_leaves-split_leaf drawn (leaf l) p d q h = ground arith
  collect_leaves-split_leaf drawn (split s e r a b) p d q h = rw (
    insert_after-append p (record { pane_id = q; host = h }) (collect_leaves a) (collect_leaves b),
    collect_leaves-split_leaf drawn a p d q h,
    collect_leaves-split_leaf (split_leaf uuid drawn a p d q h).1 b p d q h,
  )

  pub occurs-split_leaf :
      (drawn : ℕ) (t : PaneNode W) (p : String) (d : Direction) (q : String) (h : Host) (x : String)
      → occurs x (pane_ids (split_leaf uuid drawn t p d q h).0)
        ≡ occurs x (pane_ids t) + occurs p (pane_ids t) * hit q x
  occurs-split_leaf drawn t p d q h x =
      rw (collect_leaves-split_leaf drawn t p d q h)
        (occurs-insert_after p x (record { pane_id = q; host = h }) (collect_leaves t))

  -- Where the pane is not there, nothing is split and nothing drawn.
  pub split_leaf_absent :
      (drawn : ℕ) (t : PaneNode W) (p : String) (d : Direction) (q : String) (h : Host)
      → is_some (find_leaf t p) ≡ false
      → split_leaf uuid drawn t p d q h ≡ (t, drawn)
  unfolding split_leaf find_leaf
  split_leaf_absent drawn (leaf l) p d q h e = ground arith
  split_leaf_absent drawn (split s k r a b) p d q h e =
      let left = split_leaf_absent drawn a p d q h (ground arith) in
      let right = split_leaf_absent drawn b p d q h (ground arith) in rw (left, right)

  pub found-split_leaf :
      (drawn : ℕ) (t : PaneNode W) (p : String) (d : Direction) (q : String) (h : Host)
      → occurs q (pane_ids t) ≡ 0
      → is_some (find_leaf t p) ≡ true
      → is_some (find_leaf (split_leaf uuid drawn t p d q h).0 q) ≡ true
  found-split_leaf drawn t p d q h new found = find_leaf_of_occurs_pos _ q (
      rw (occurs-split_leaf drawn t p d q h q, new, hit-true q q ((eq_iff q q).1 refl))
        (omega (arith, find_leaf_present t p found)))

  -- Where the pane to split occurs at most once in the tree and the new identifier not at
  -- all, removing the new leaf directly after splitting gives the tree back.
  pub remove_leaf-split_leaf :
      (drawn : ℕ) (t : PaneNode W) (p : String) (d : Direction) (q : String) (h : Host)
      → occurs p (pane_ids t) ≤ 1
      → occurs q (pane_ids t) ≡ 0
      → remove_leaf (split_leaf uuid drawn t p d q h).0 q ≡ some t
  unfolding remove_leaf find_leaf split_leaf collect_leaves
  remove_leaf-split_leaf drawn (leaf l) p d q h once new =
      let other : (l.pane_id == q) ≡ false = hit_zero l.pane_id q (omega arith) in
      elim (Bool-cases (l.pane_id == p)) [
        | inl same ↦ rw (same, other, (eq_iff q q).1 refl)
        | inr miss ↦ rw (miss, other)
      ]
  remove_leaf-split_leaf drawn (split s k r a b) p d q h once new =
      let sum_p = occurs-split p s k r a b in
      let sum_q = occurs-split q s k r a b in
      let new_a : occurs q (pane_ids a) ≡ 0 = omega (arith, sum_q) in
      let new_b : occurs q (pane_ids b) ≡ 0 = omega (arith, sum_q) in
      elim (Bool-cases (is_some (find_leaf a p))) [
        | inl in_a ↦
            let absent_b =
              find_leaf_of_occurs_zero b p (omega (arith, sum_p, find_leaf_present a p in_a)) in
            rw (
              split_leaf_absent (split_leaf uuid drawn a p d q h).1 b p d q h absent_b,
              found-split_leaf drawn a p d q h new_a in_a,
              remove_leaf-split_leaf drawn a p d q h (omega (arith, sum_p)) new_a,
            )
        | inr not_a ↦
            rw (split_leaf_absent drawn a p d q h not_a, find_leaf_of_occurs_zero a q new_a)
              (elim (Bool-cases (is_some (find_leaf b p))) [
                | inl in_b ↦ rw (
                  found-split_leaf drawn b p d q h new_b in_b,
                  remove_leaf-split_leaf drawn b p d q h (omega (arith, sum_p)) new_b,
                )
                | inr not_b ↦
                    rw (split_leaf_absent drawn b p d q h not_b, find_leaf_of_occurs_zero b q new_b)
              ])
      ]

  pub drawn-split_leaf :
      (drawn : ℕ) (t : PaneNode W) (p : String) (d : Direction) (q : String) (h : Host)
      → drawn ≤ (split_leaf uuid drawn t p d q h).1
  unfolding split_leaf
  drawn-split_leaf drawn (leaf l) p d q h = ground arith
  drawn-split_leaf drawn (split s e r a b) p d q h = omega (
    arith,
    drawn-split_leaf drawn a p d q h,
    drawn-split_leaf (split_leaf uuid drawn a p d q h).1 b p d q h,
  )

  pub count_leaves-split_leaf :
      (drawn : ℕ) (t : PaneNode W) (p : String) (d : Direction) (q : String) (h : Host)
      → count_leaves (split_leaf uuid drawn t p d q h).0 ≡ count_leaves t + occurs p (pane_ids t)
  count_leaves-split_leaf drawn t p d q h =
      rw
        (
          length-collect_leaves (split_leaf uuid drawn t p d q h).0,
          length-collect_leaves t,
          collect_leaves-split_leaf drawn t p d q h,
        )
        (length-insert_after p (record { pane_id = q; host = h }) (collect_leaves t))
