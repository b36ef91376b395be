-- ===== src/PaneTree/Layout/Sizes.antt =====
-- The sizes of the panes that a layout shows.
use connect_hub.Base.{◌≡◌, true, arith, All, All-append}
use connect_hub.Number.{Number, ◌≼◌, nought, maximum, IsOrdered, IsRounded}
use connect_hub.PaneTree.{Direction, row, column, PaneNode, leaf, split, min_ratio, max_ratio}
use connect_hub.PaneTree.Resizing.{InBounds}
use connect_hub.PaneTree.Layout.{
  Rect, LeafLayout, a_rect, b_rect, compute_layout, divider_thickness_px,
}

module _ {W : Type 0} ⦃num : Number W⦄ where
  -- A length that is finite, not negative and at most `most`.
  pub record FitsIn (most x : W) : Type 0 where
    pub finite : num.is_finite x ≡ true
    pub nonneg : nought ≼ x
    pub within : x ≼ most

  pub record RectFits (width height : W) (rect : Rect W) : Type 0 where
    pub wide : FitsIn width rect.width
    pub high : FitsIn height rect.height

module _ {W : Type 0} ⦃num : Number W⦄ (ord : IsOrdered W) (rounded : IsRounded W) where
  within : (most x y : W) → FitsIn most x → nought ≼ y → y ≼ x → FitsIn most y
  within most x y f p q = record {
    finite = rounded.finite_of_le y x p q f.finite;
    nonneg = p;
    within = ord.trans y x most q f.within;
  }

  -- The pixels to divide, of a total that fits, fit.
  available_fits :
      (most total : W)
      → FitsIn most total
      → FitsIn most (maximum nought (num.minus total divider_thickness_px))
  available_fits most total f =
      let less = rounded.minus-literal_le total 6 f.finite f.nonneg in
      let zero_refl = ord.refl_of_le nought total f.nonneg in
      let less_refl = ord.refl_of_le _ total less in
      within most total _ f (ground (arith, zero_refl, less_refl))
        (ground (arith, zero_refl, less_refl, less))

  share_fits :
      (most x r : W) → FitsIn most x → min_ratio ≼ r → r ≼ max_ratio → FitsIn most (num.times x r)
  share_fits most x r f lo hi =
      let pos = ord.trans _ _ _ ord.zero_le_min lo in
      let small = ord.trans _ _ _ hi ord.max_le_one in
      within most x _ f (rounded.share_nonneg x r f.finite f.nonneg pos small)
        (rounded.share_le x r f.finite f.nonneg pos small)

  rest_fits :
      (most x r : W)
      → FitsIn most x
      → min_ratio ≼ r
      → r ≼ max_ratio
      → FitsIn most (num.minus x (num.times x r))
  rest_fits most x r f lo hi =
      let pos = ord.trans _ _ _ ord.zero_le_min lo in
      let small = ord.trans _ _ _ hi ord.max_le_one in
      let share = rounded.share_nonneg x r f.finite f.nonneg pos small in
      let part = rounded.share_le x r f.finite f.nonneg pos small in
      within most x _ f (rounded.rest_nonneg x _ f.finite share part)
        (rounded.rest_le x _ f.finite share part)

  a_rect_fits :
      (w h : W) (d : Direction) (r : W) (rect : Rect W)
      → RectFits w h rect
      → min_ratio ≼ r
      → r ≼ max_ratio
      → RectFits w h (a_rect d r rect)
  unfolding a_rect
  a_rect_fits w h row r rect f lo hi = record {
    wide = share_fits w _ r (available_fits w rect.width f.wide) lo hi;
    high = f.high;
  }
  a_rect_fits w h column r rect f lo hi = record {
    wide = f.wide;
    high = share_fits h _ r (available_fits h rect.height f.high) lo hi;
  }

  b_rect_fits :
      (w h : W) (d : Direction) (r : W) (rect : Rect W)
      → RectFits w h rect
      → min_ratio ≼ r
      → r ≼ max_ratio
      → RectFits w h (b_rect d r rect)
  unfolding b_rect
  b_rect_fits w h row r rect f lo hi = record {
    wide = rest_fits w _ r (available_fits w rect.width f.wide) lo hi;
    high = f.high;
  }
  b_rect_fits w h column r rect f lo hi = record {
    wide = f.wide;
    high = rest_fits h _ r (available_fits h rect.height f.high) lo hi;
  }

  -- Let the numbers be ordered and rounded as documented, the ratios of a layout be within
  -- their bounds, and the container's width and height be finite, not negative and at most
  -- `w` and `h`. Then so are the width and the height of every pane shown.
  pub compute_layout-RectFits :
      (t : PaneNode W) (w h : W) (rect : Rect W)
      → InBounds t
      → RectFits w h rect
      → All (λ (l : LeafLayout W). RectFits w h l.rect) (compute_layout t rect).leaves
  unfolding compute_layout
  compute_layout-RectFits (leaf l) w h rect v f = (f, tt)
  compute_layout-RectFits (split s d r a b) w h rect (lo, hi, va, vb) f =
      All-append (λ (l : LeafLayout W). RectFits w h l.rect)
        (compute_layout a (a_rect d r rect)).leaves (compute_layout b (b_rect d r rect)).leaves
        (compute_layout-RectFits a w h (a_rect d r rect) va (a_rect_fits w h d r rect f lo hi))
        (compute_layout-RectFits b w h (b_rect d r rect) vb (b_rect_fits w h d r rect f lo hi))
