-- ===== src/PaneTree/Resizing.antt =====
-- Moving a divider (`resizeSplit`): the panes stay, and the ratios stay within their bounds.
use connect_hub.Base.{
  subst, ℕ, Option, none, some, maybe, is_some, ◌≡◌, refl, String, arith, ◌==◌, Bool-cases, inl,
  inr,
}
use connect_hub.Number.{Number, ◌≼◌, maximum, minimum, IsOrdered}
use connect_hub.Bridge.{Host}
use connect_hub.PaneTree.{
  Direction, PaneNode, leaf, split, count_leaves, collect_leaves, find_leaf, split_leaf,
  remove_leaf, resize_split, min_ratio, max_ratio,
}
use connect_hub.PaneTree.Leaves.{length-collect_leaves}

module _ {W : Type 0} ⦃num : Number W⦄ where
  -- Every divider leaves each side its least share.
  abbrev pub InBounds : PaneNode W → Type 0
  InBounds (leaf l) = Unit {0}
  InBounds (split s d r a b) = (min_ratio ≼ r) × (r ≼ max_ratio) × InBounds a × InBounds b

  pub collect_leaves-resize_split :
      (t : PaneNode W) (split_id : String) (new_ratio : W)
      → collect_leaves (resize_split t split_id new_ratio) ≡ collect_leaves t
  unfolding resize_split collect_leaves
  collect_leaves-resize_split (leaf l) split_id new_ratio = refl
  collect_leaves-resize_split (split s d r a b) split_id new_ratio =
      elim (Bool-cases (s == split_id)) [
        | inl here ↦ rw here
        | inr there ↦ rw (
          there,
          collect_leaves-resize_split a split_id new_ratio,
          collect_leaves-resize_split b split_id new_ratio,
        )
      ]

  pub count_leaves-resize_split :
      (t : PaneNode W) (split_id : String) (new_ratio : W)
      → count_leaves (resize_split t split_id new_ratio) ≡ count_leaves t
  count_leaves-resize_split t split_id new_ratio = rw (
    length-collect_leaves (resize_split t split_id new_ratio),
    length-collect_leaves t,
    collect_leaves-resize_split t split_id new_ratio,
  )

module _ {W : Type 0} ⦃num : Number W⦄ (ord : IsOrdered W) where
  clamp_bounds :
      (lo hi x : W)
      → lo ≼ hi
      → x ≼ x
      → (lo ≼ maximum lo (minimum hi x)) × (maximum lo (minimum hi x) ≼ hi)
  clamp_bounds lo hi x h n =
      ground (arith, ord.refl_of_le lo hi h, ord.total hi x, ord.total lo x, ord.total lo hi)

  -- Let the numbers be ordered as documented. Where the ratios of a layout are within their
  -- bounds and a divider is dragged to a number, NaN excluded, the ratios are within their
  -- bounds again.
  pub resize_split-InBounds :
      (t : PaneNode W) (split_id : String) (new_ratio : W)
      → new_ratio ≼ new_ratio
      → InBounds t
      → InBounds (resize_split t split_id new_ratio)
  unfolding resize_split
  resize_split-InBounds (leaf l) split_id new_ratio n v = tt
  resize_split-InBounds (split s d r a b) split_id new_ratio n (lo, hi, va, vb) =
      elim (Bool-cases (s == split_id)) [
        | inl here ↦
            let bounds =
              clamp_bounds min_ratio max_ratio new_ratio
                (ord.trans _ _ _ ord.min_le_half ord.half_le_max) n in
            rw here (bounds.0, bounds.1, va, vb)
        | inr there ↦ rw there (
          lo,
          hi,
          resize_split-InBounds a split_id new_ratio n va,
          resize_split-InBounds b split_id new_ratio n vb,
        )
      ]

  pub split_leaf-InBounds :
      (uuid : ℕ → String) (drawn : ℕ) (t : PaneNode W) (p : String) (d : Direction) (q : String)
      (h : Host)
      → InBounds t
      → InBounds (split_leaf uuid drawn t p d q h).0
  unfolding split_leaf
  split_leaf-InBounds uuid drawn (leaf l) p d q h v = elim (Bool-cases (l.pane_id == p)) [
    | inl here ↦ rw here (ord.min_le_half, ord.half_le_max, tt, tt)
    | inr there ↦ rw there tt
  ]
  split_leaf-InBounds uuid drawn (split s e r a b) p d q h (lo, hi, va, vb) = (
    lo,
    hi,
    split_leaf-InBounds uuid drawn a p d q h va,
    split_leaf-InBounds uuid (split_leaf uuid drawn a p d q h).1 b p d q h vb,
  )

module _ {W : Type 0} ⦃num : Number W⦄ where
  abbrev pub AllInBounds : Option (PaneNode W) → Type 0
  AllInBounds none = Unit {0}
  AllInBounds (some t) = InBounds t

  in_a-InBounds :
      (s : String) (d : Direction) (r : W) (b : PaneNode W) (o : Option (PaneNode W))
      → min_ratio ≼ r
      → r ≼ max_ratio
      → InBounds b
      → AllInBounds o
      → InBounds (maybe b (λ removed. split s d r removed b) o)
  in_a-InBounds s d r b none lo hi vb v = vb
  in_a-InBounds s d r b (some a) lo hi vb v = (lo, hi, v, vb)

  in_b-InBounds :
      (s : String) (d : Direction) (r : W) (a : PaneNode W) (o : Option (PaneNode W))
      → min_ratio ≼ r
      → r ≼ max_ratio
      → InBounds a
      → AllInBounds o
      → InBounds (maybe a (λ removed. split s d r a removed) o)
  in_b-InBounds s d r a none lo hi va v = va
  in_b-InBounds s d r a (some b) lo hi va v = (lo, hi, va, v)

  pub remove_leaf-InBounds :
      (t : PaneNode W) (p : String) → InBounds t → AllInBounds (remove_leaf t p)
  unfolding remove_leaf
  remove_leaf-InBounds (leaf l) p v = elim (Bool-cases (l.pane_id == p)) [
    | inl here ↦ rw here tt
    | inr there ↦ rw there tt
  ]
  remove_leaf-InBounds (split s d r a b) p (lo, hi, va, vb) =
      elim (Bool-cases (is_some (find_leaf a p))) [
        | inl here ↦
            rw here (in_a-InBounds s d r b (remove_leaf a p) lo hi vb (remove_leaf-InBounds a p va))
        | inr there ↦ rw there (elim (Bool-cases (is_some (find_leaf b p))) [
          | inl here ↦
              rw here
                (in_b-InBounds s d r a (remove_leaf b p) lo hi va (remove_leaf-InBounds b p vb))
          | inr nowhere ↦ rw nowhere (lo, hi, va, vb)
        ])
      ]

  pub remove_leaf-some-InBounds :
      (t u : PaneNode W) (p : String) → remove_leaf t p ≡ some u → InBounds t → InBounds u
  remove_leaf-some-InBounds t u p e v = subst AllInBounds e (remove_leaf-InBounds t p v)
