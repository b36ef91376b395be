-- ===== src/PaneTree.antt =====
-- src/lib/paneTree.ts: a terminal tab's split layout. A leaf is one connection, a split is one divider
-- between two regions. `crypto.randomUUID` is the parameter `uuid`, the k-th identifier drawn; an
-- operation that draws takes the number drawn so far and returns the new number.
pub mod Leaves
pub mod Closing
pub mod Splitting
pub mod Resizing
pub mod Layout
pub mod Saved
use connect_hub.Base.{
  ℕ, suc, ◌+◌, String, Bool, List, [], ◌∷◌, ◌++◌, Option, none, some, ◌==◌, if◌then◌else◌, is_some,
  or_else, maybe,
}
use connect_hub.Number.{Number, maximum, minimum}
use connect_hub.Bridge.{Host}

pub data Direction : Type 0 where
  row column : Direction

pub record PaneLeaf : Type 0 where
  pub pane_id : String
  pub host : Host

-- `split split_id direction ratio a b`
pub data PaneNode (W : Type 0) : Type 0 where
  leaf : PaneLeaf → PaneNode W
  split : String → Direction → W → PaneNode W → PaneNode W → PaneNode W

module _ {W : Type 0} where
  unfoldable pub count_leaves : PaneNode W → ℕ
  count_leaves (leaf l) = 1
  count_leaves (split s d r a b) = count_leaves a + count_leaves b

  unfoldable pub find_leaf : PaneNode W → String → Option PaneLeaf
  find_leaf (leaf l) pane_id = if l.pane_id == pane_id then some l else none
  find_leaf (split s d r a b) pane_id = or_else (find_leaf a pane_id) (find_leaf b pane_id)

  unfoldable pub collect_leaves : PaneNode W → List PaneLeaf
  collect_leaves (leaf l) = l ∷ []
  collect_leaves (split s d r a b) = collect_leaves a ++ collect_leaves b

  unfoldable pub remove_leaf : PaneNode W → String → Option (PaneNode W)
  unfolding find_leaf
  remove_leaf (leaf l) pane_id = if l.pane_id == pane_id then none else some (leaf l)
  remove_leaf (split s d r a b) pane_id =
      let in_a = maybe b (λ removed. split s d r removed b) (remove_leaf a pane_id) in
      let in_b = maybe a (λ removed. split s d r a removed) (remove_leaf b pane_id) in
      if is_some (find_leaf a pane_id)
      then some in_a
      else if is_some (find_leaf b pane_id)
      then some in_b
      else some (split s d r a b)

module _ {W : Type 0} ⦃num : Number W⦄ where
  abbrev pub min_ratio : W
  min_ratio = num.decimal 15 2

  abbrev pub max_ratio : W
  max_ratio = num.decimal 85 2

  abbrev pub half : W
  half = num.decimal 5 1

  unfoldable pub resize_split : PaneNode W → String → W → PaneNode W
  resize_split (leaf l) split_id new_ratio = leaf l
  resize_split (split s d r a b) split_id new_ratio =
      if s == split_id
      then split s d (maximum min_ratio (minimum max_ratio new_ratio)) a b
      else split s d r (resize_split a split_id new_ratio) (resize_split b split_id new_ratio)

module _ {W : Type 0} ⦃num : Number W⦄ (uuid : ℕ → String) where
  unfoldable pub split_leaf : ℕ → PaneNode W → String → Direction → String → Host → PaneNode W × ℕ
  split_leaf drawn (leaf l) pane_id direction new_pane_id new_host =
      if l.pane_id == pane_id
      then (
        split (uuid drawn) direction half (leaf l)
            (leaf (record { pane_id = new_pane_id; host = new_host })),
        suc drawn,
      )
      else (leaf l, drawn)
  split_leaf drawn (split s d r a b) pane_id direction new_pane_id new_host =
      let in_a = split_leaf drawn a pane_id direction new_pane_id new_host in
      let in_b = split_leaf in_a.1 b pane_id direction new_pane_id new_host in
      (split s d r in_a.0 in_b.0, in_b.1)
