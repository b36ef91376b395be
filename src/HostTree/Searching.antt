-- ===== src/HostTree/Searching.antt =====
-- src/components/sidebar/HostTree.tsx: what `groupHasMatch` looks for.
use connect_hub.Base.{
  ℕ, zero, suc, ◌<◌, ◌≡◌, refl, ap, String, Bool, true, ◌&&◌, List, [], ◌∷◌, Option, none, some,
  any, arith, get_elem?, Bool-cases, inl, inr, eq_iff,
}
use connect_hub.Bridge.{Group, Host}
use connect_hub.HostTree.{is_filtering, host_matches, is_in, group_has_match}

module _ {A : Type 0} (p : A → Bool) where
  -- An element that a test picks, with its place.
  Picked : List A → Type 0
  Picked xs = (i : ℕ) × (x : A) × (get_elem? xs i ≡ some x) × (p x ≡ true)

  any-Picked : (xs : List A) → any p xs ≡ true → Picked xs
  unfolding Picked
  any-Picked [] h = absurd (ground (arith, h))
  any-Picked (x ∷ xs) h = elim (Bool-cases (p x)) [
    | inl picked ↦ (zero, x, refl, picked)
    | inr passed ↦
        let (i, y, place, picked) = any-Picked xs (ground (arith, h, passed)) in
        (suc i, y, place, picked)
  ]

  Picked-any :
      (xs : List A) (i : ℕ) (x : A) → get_elem? xs i ≡ some x → p x ≡ true → any p xs ≡ true
  Picked-any [] i x place picked = absurd (ground (arith, place))
  Picked-any (y ∷ ys) zero x place picked = ground (arith, place, picked)
  Picked-any (y ∷ ys) (suc i) x place picked = ground (arith, Picked-any ys i x place picked)

is_in-some : (id : String) (parent : Option String) → is_in id parent ≡ true → parent ≡ some id
is_in-some id none h = absurd (ground (arith, h))
is_in-some id (some p) h = ap some ((eq_iff p id).0 h)

some-is_in : (id : String) (parent : Option String) → parent ≡ some id → is_in id parent ≡ true
some-is_in id parent e = rw e ((eq_iff id id).1 refl)

module _ (contains : String → String → Bool) (query : String) (tag_filter : List String)
    (groups : List Group) (hosts : List Host) where
  abbrev here_in : String → Host → Bool
  here_in id h = is_in id h.group_id && host_matches contains query tag_filter h

  abbrev below_in : ℕ → String → Group → Bool
  below_in depth id g =
      is_in id g.parent_id && group_has_match contains query tag_filter groups hosts depth g.id

  -- A host that matches stands in the group, or in a group inside it.
  pub data Inside : String → Type 0 where
    direct :
        {group_id : String} (i : ℕ) (h : Host)
        → get_elem? hosts i ≡ some h
        → h.group_id ≡ some group_id
        → host_matches contains query tag_filter h ≡ true
        → Inside group_id
    nested :
        {group_id : String} (i : ℕ) (g : Group)
        → get_elem? groups i ≡ some g
        → g.parent_id ≡ some group_id
        → Inside g.id
        → Inside group_id

  pub group_has_match-Inside :
      (depth : ℕ) (id : String)
      → is_filtering query tag_filter ≡ true
      → group_has_match contains query tag_filter groups hosts depth id ≡ true
      → Inside id
  unfolding group_has_match Picked
  group_has_match-Inside zero id searching found = absurd (ground (arith, found))
  group_has_match-Inside (suc depth) id searching found =
      elim (Bool-cases (any (here_in id) hosts)) [
        | inl own ↦
            let (i, h, place, picked) = any-Picked (here_in id) hosts own in
            direct i h place (is_in-some id h.group_id (ground (arith, picked)))
              (ground (arith, picked))
        | inr none_own ↦
            let (i, g, place, picked) =
              any-Picked (below_in depth id) groups (ground (arith, found, searching, none_own)) in
            nested i g place (is_in-some id g.parent_id (ground (arith, picked)))
              (group_has_match-Inside depth g.id searching (ground (arith, picked)))
      ]

  -- Where each group ranks below its parent, so many levels as the group's rank and one are enough.
  pub Inside-group_has_match :
      (rank : String → ℕ)
      → ((i : ℕ) (g : Group) (p : String)
          → get_elem? groups i ≡ some g
          → g.parent_id ≡ some p
          → rank g.id < rank p)
      → (depth : ℕ) (id : String) → rank id < depth
      → Inside id
      → group_has_match contains query tag_filter groups hosts depth id ≡ true
  unfolding group_has_match
  Inside-group_has_match rank below zero id deep m = absurd (omega (arith, deep))
  Inside-group_has_match rank below (suc depth) id deep (direct i h place parent match) =
      let found =
        Picked-any (here_in id) hosts i h place
          (rw (some-is_in id h.group_id parent, match) refl) in
      ground (arith, found)
  Inside-group_has_match rank below (suc depth) id deep (nested i g place parent m) =
      let inner =
        Inside-group_has_match rank below depth g.id
          (omega (arith, deep, below i g id place parent)) m in
      let found =
        Picked-any (below_in depth id) groups i g place
          (rw (some-is_in id g.parent_id parent, inner) refl) in
      ground (arith, found)

  -- Let the sidebar be searched or filtered, and let each group rank below its parent. With
  -- one level more than a group's rank, `groupHasMatch` says that the group has a match just
  -- where a host that matches stands in it, or in a group inside it at any depth.
  pub group_has_match_lem :
      (rank : String → ℕ)
      → ((i : ℕ) (g : Group) (p : String)
          → get_elem? groups i ≡ some g
          → g.parent_id ≡ some p
          → rank g.id < rank p)
      → is_filtering query tag_filter ≡ true
      → (depth : ℕ) (id : String) → rank id < depth
      → (group_has_match contains query tag_filter groups hosts depth id ≡ true → Inside id)
        × (Inside id → group_has_match contains query tag_filter groups hosts depth id ≡ true)
  group_has_match_lem rank below searching depth id deep = (
    group_has_match-Inside depth id searching,
    λ m. Inside-group_has_match rank below depth id deep m,
  )
