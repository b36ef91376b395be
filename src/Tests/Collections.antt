-- ===== src/Tests/Collections.antt =====
-- src/state/hostsStore.ts: two groups put into a new order, on a backend that is a table.
use connect_hub.Base.{
  ◌≡◌, refl, sym, ap, ◌∙◌, String, Bool, true, false, Option, none, some, List, [], ◌∷◌, arith,
  empty, insert, Dict, Distinct, hit, eq_iff, ◌==◌, Bool-cases, inl, inr,
}
use connect_hub.Bridge.{Group, GroupInput}
use connect_hub.Hosts.{input_at, reorder_from, reorder_groups}
use connect_hub.Hosts.Reordering.{IsTable, group_ids, reorder_groups-ordered}

abbrev group_update : Dict GroupInput → String → GroupInput → Dict GroupInput × Bool
group_update b id i = (insert id i b, true)

abbrev look_up : Dict GroupInput → String → Option GroupInput
look_up b id = b id

group_update-IsTable : IsTable group_update look_up
group_update-IsTable = record {
  updated = λ b id i ok. rw ((eq_iff id id).1 refl);
  others = λ b id i j ok e. rw e;
}

abbrev group_called : String → Group
group_called id = record { id = id; parent_id = none; name = id; sort_order = 7 }

abbrev groups : List Group
groups = group_called "work" ∷ group_called "home" ∷ []

groups-Distinct : Distinct (group_ids groups)
unfolding hit
groups-Distinct x = elim (Bool-cases ("work" == x)) [
  | inr other ↦ elim (Bool-cases ("home" == x)) [
    | inr far ↦ rw (other, far) (omega arith)
    | inl near ↦ rw (other, near) (omega arith)
  ]
  | inl same ↦ elim (Bool-cases ("home" == x)) [
    | inr far ↦ rw (same, far) (omega arith)
    | inl near ↦ absurd (apart x ((eq_iff "work" x).0 same) ((eq_iff "home" x).0 near))
  ]
]
  where
    apart : (x : String) → "work" ≡ x → "home" ≡ x → ⊥
    apart x p q = let e : true ≡ false = ap (λ s. s == "work") (p ∙ sym q) in ground (arith, e)

all_called : (reorder_groups group_update empty groups).1 ≡ true
unfolding reorder_groups reorder_from
all_called = refl

reorder_groups-ordered_example :
    look_up (reorder_groups group_update empty groups).0 "home"
    ≡ some (input_at 1 (group_called "home"))
reorder_groups-ordered_example =
    reorder_groups-ordered group_update look_up group_update-IsTable empty groups 1
      (group_called "home") groups-Distinct all_called refl
