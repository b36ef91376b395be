-- ===== src/Hosts/Reordering.antt =====
-- The backend's groups after `reorderGroups`.
use connect_hub.Base.{
  ℕ, zero, suc, ◌+◌, ◌≡◌, refl, sym, ap, ◌∙◌, subst, String, Bool, true, false, List, [], ◌∷◌, map,
  Option, some, arith, ◌==◌, eq_iff, occurs, hit-true, Distinct, get_elem?, get_or_else, Bool-cases,
  inl, inr,
}
use connect_hub.Bridge.{Group, GroupInput}
use connect_hub.Hosts.{input_at, reorder_from, reorder_groups}

-- What `groupUpdate` does where it succeeds: the group has the input given, and no other changes.
pub record IsTable {B : Type 0} (group_update : B → String → GroupInput → B × Bool)
    (look_up : B → String → Option GroupInput) : Type 0 where
  pub updated :
      (b : B) (id : String) (i : GroupInput)
      → (group_update b id i).1 ≡ true
      → look_up (group_update b id i).0 id ≡ some i
  pub others :
      (b : B) (id : String) (i : GroupInput) (j : String)
      → (group_update b id i).1 ≡ true
      → (id == j) ≡ false
      → look_up (group_update b id i).0 j ≡ look_up b j

abbrev pub group_ids : List Group → List String
group_ids gs = map (λ (g : Group). g.id) gs

module _ {B : Type 0} (group_update : B → String → GroupInput → B × Bool)
    (look_up : B → String → Option GroupInput) (table : IsTable group_update look_up) where
  first_called :
      (b : B) (n : ℕ) (g : Group) (gs : List Group)
      → (reorder_from group_update b n (g ∷ gs)).1 ≡ true
      → ((group_update b g.id (input_at n g)).1 ≡ true)
        × (reorder_from group_update b n (g ∷ gs)
            ≡ reorder_from group_update (group_update b g.id (input_at n g)).0 (suc n) gs)
  unfolding reorder_from
  first_called b n g gs ok = elim (Bool-cases (group_update b g.id (input_at n g)).1) [
    | inl called ↦ (called, rw called)
    | inr thrown ↦ absurd (ground (arith, rw thrown at ok))
  ]

  untouched :
      (b : B) (n : ℕ) (gs : List Group) (j : String)
      → (reorder_from group_update b n gs).1 ≡ true
      → occurs j (group_ids gs) ≡ 0
      → look_up (reorder_from group_update b n gs).0 j ≡ look_up b j
  unfolding reorder_from
  untouched b n [] j ok h = refl
  untouched b n (g ∷ gs) j ok h =
      let (called, same) = first_called b n g gs ok in
      let apart : (g.id == j) ≡ false = elim (Bool-cases (g.id == j)) [
        | inl e ↦ absurd (omega (arith, hit-true g.id j e))
        | inr e ↦ e
      ] in
      ap (λ r. look_up r.0 j) same
      ∙ untouched (group_update b g.id (input_at n g)).0 (suc n) gs j
          (sym (ap (λ r. r.1) same) ∙ ok) (omega arith)
      ∙ table.others b g.id (input_at n g) j called apart

  ordered_from :
      (b : B) (n : ℕ) (gs : List Group) (i : ℕ) (g : Group)
      → Distinct (group_ids gs)
      → (reorder_from group_update b n gs).1 ≡ true
      → get_elem? gs i ≡ some g
      → look_up (reorder_from group_update b n gs).0 g.id ≡ some (input_at (n + i) g)
  ordered_from b n [] i g d ok e = ground (arith, e)
  ordered_from b n (x ∷ gs) zero g d ok e =
      let (called, same) = first_called b n x gs ok in
      let found : x ≡ g = ap (λ o. get_or_else o x) e in
      subst
        (λ y. look_up (reorder_from group_update b n (x ∷ gs)).0 y.id ≡ some (input_at (n + 0) y))
        found
        (ap (λ r. look_up r.0 x.id) same
          ∙ untouched (group_update b x.id (input_at n x)).0 (suc n) gs x.id
              (sym (ap (λ r. r.1) same) ∙ ok)
              (omega (arith, d x.id, hit-true x.id x.id ((eq_iff x.id x.id).1 refl)))
          ∙ table.updated b x.id (input_at n x) called
          ∙ ap (λ k. some (input_at k x)) (omega arith))
  ordered_from b n (x ∷ gs) (suc i) g d ok e =
      let (called, same) = first_called b n x gs ok in
      ap (λ r. look_up r.0 g.id) same
      ∙ ordered_from (group_update b x.id (input_at n x)).0 (suc n) gs i g (λ j. omega (arith, d j))
          (sym (ap (λ r. r.1) same) ∙ ok) e
      ∙ ap (λ k. some (input_at k g)) (omega arith)

  -- Let `groupUpdate`, where it succeeds, give the group the input and change no other. Where
  -- the groups have distinct identifiers and every call succeeds, afterwards each group has
  -- its own parent and name, and its place in the list as its sort order.
  pub reorder_groups-ordered :
      (b : B) (gs : List Group) (i : ℕ) (g : Group)
      → Distinct (group_ids gs)
      → (reorder_groups group_update b gs).1 ≡ true
      → get_elem? gs i ≡ some g
      → look_up (reorder_groups group_update b gs).0 g.id ≡ some (input_at i g)
  unfolding reorder_groups
  reorder_groups-ordered b gs i g d ok e =
      ordered_from b 0 gs i g d ok e ∙ ap (λ k. some (input_at k g)) (omega arith)
