-- ===== src/PaneTree/Layout.antt =====
-- src/lib/paneTree.ts, `computeLayout`: the absolute rectangles of the panes and dividers of a layout.
pub mod Identity
pub mod Sizes
use connect_hub.Base.{String, Bool, true, false, List, [], ◌∷◌, ◌++◌, if◌then◌else◌}
use connect_hub.Number.{Number, maximum}
use connect_hub.Bridge.{Host}
use connect_hub.PaneTree.{Direction, row, column, PaneNode, leaf, split}

pub record Rect (W : Type 0) : Type 0 where
  pub left : W
  pub top : W
  pub width : W
  pub height : W

pub record LeafLayout (W : Type 0) : Type 0 where
  pub pane_id : String
  pub host : Host
  pub rect : Rect W

pub record DividerLayout (W : Type 0) : Type 0 where
  pub split_id : String
  pub direction : Direction
  pub ratio : W
  pub available_px : W
  pub rect : Rect W

pub record Layout (W : Type 0) : Type 0 where
  pub leaves : List (LeafLayout W)
  pub dividers : List (DividerLayout W)

abbrev is_row : Direction → Bool
is_row row = true
is_row column = false

module _ {W : Type 0} ⦃num : Number W⦄ where
  abbrev pub divider_thickness_px : W
  divider_thickness_px = num.decimal 6 0

  -- The pixels that a split divides between its two sides.
  pub available : Direction → Rect W → W
  available d rect =
      let total = if is_row d then rect.width else rect.height in
      maximum (num.decimal 0 0) (num.minus total divider_thickness_px)

  pub a_rect : Direction → W → Rect W → Rect W
  unfolding available
  a_rect d r rect =
      let a_size = num.times (available d rect) r in
      if is_row d then record rect { width = a_size } else record rect { height = a_size }

  pub divider_rect : Direction → W → Rect W → Rect W
  unfolding available
  divider_rect d r rect =
      let a_size = num.times (available d rect) r in
      if is_row d
      then record {
        left = num.plus rect.left a_size;
        top = rect.top;
        width = divider_thickness_px;
        height = rect.height;
      }
      else record {
        left = rect.left;
        top = num.plus rect.top a_size;
        width = rect.width;
        height = divider_thickness_px;
      }

  pub b_rect : Direction → W → Rect W → Rect W
  unfolding available
  b_rect d r rect =
      let a_size = num.times (available d rect) r in
      let b_size = num.minus (available d rect) a_size in
      if is_row d
      then record {
        left = num.plus (num.plus rect.left a_size) divider_thickness_px;
        top = rect.top;
        width = b_size;
        height = rect.height;
      }
      else record {
        left = rect.left;
        top = num.plus (num.plus rect.top a_size) divider_thickness_px;
        width = rect.width;
        height = b_size;
      }

  unfoldable pub compute_layout : PaneNode W → Rect W → Layout W
  unfolding a_rect b_rect divider_rect
  compute_layout (leaf l) rect = record {
    leaves = record { pane_id = l.pane_id; host = l.host; rect = rect } ∷ [];
    dividers = [];
  }
  compute_layout (split s d r a b) rect =
      let in_a = compute_layout a (a_rect d r rect) in
      let in_b = compute_layout b (b_rect d r rect) in
      let divider : DividerLayout W = record {
        split_id = s;
        direction = d;
        ratio = r;
        available_px = available d rect;
        rect = divider_rect d r rect;
      } in
      record {
        leaves = in_a.leaves ++ in_b.leaves;
        dividers = in_a.dividers ++ (divider ∷ in_b.dividers);
      }
