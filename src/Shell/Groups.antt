-- ===== src/Shell/Groups.antt =====
-- src/lib/groupTree.ts and, of src/pages/AppShell.tsx, the dragging of groups. `comes_first` is the
-- platform's comparison of two texts (`localeCompare`), not positive.
use connect_hub.Base.{
  ℕ, ◌+◌, ◌-◌, length, String, Bool, true, false, not, ◌&&◌, ◌||◌, List, Option, none, some, maybe,
  find, filter, find_index, ◌==◌, if◌then◌else◌, eqb, ltb, sort_by,
}
use connect_hub.Sessions.Reorder.{insert_at}
use connect_hub.Bridge.{Group, Host}

abbrev pub same_id : Option String → Option String → Bool
same_id none none = true
same_id (some a) (some b) = a == b
same_id _ _ = false

-- Where a dragged group drops.
pub data Position : Type 0 where
  before after : Position

abbrev is_after : Option Position → Bool
is_after (some after) = true
is_after _ = false

abbrev find_group : List Group → Option String → Option Group
find_group groups none = none
find_group groups (some id) = find (λ (g : Group). g.id == id) groups

-- The index to splice in at, of the target's index and the number of groups: an index of -1 is
-- counted from the end.
insert_index : Option ℕ → Option Position → ℕ → ℕ
insert_index (some i) position count = if is_after position then i + 1 else i
insert_index none position count = if is_after position then 0 else count - 1

module _ (comes_first : String → String → Bool) where
  unfoldable pub group_before : Group → Group → Bool
  group_before a b =
      ltb a.sort_order b.sort_order || (eqb a.sort_order b.sort_order && comes_first a.name b.name)

  unfoldable pub host_before : Host → Host → Bool
  host_before a b =
      ltb a.sort_order b.sort_order
      || (eqb a.sort_order b.sort_order && comes_first a.label b.label)

  -- The groups and the hosts directly under a group, or at the root.
  unfoldable pub get_group_children :
      List Group → List Host → Option String → List Group × List Host
  get_group_children groups hosts parent_id = (
    sort_by group_before (filter (λ (g : Group). same_id g.parent_id parent_id) groups),
    sort_by host_before (filter (λ (h : Host). same_id h.group_id parent_id) hosts),
  )

  -- Whether the pointer is in the upper half decides on which side of the target a group drops;
  -- nothing where it may not drop.
  unfoldable pub handle_group_drag_over :
      List Group → Option String → Group → Bool → Option (String × Position)
  handle_group_drag_over groups dragged_group_id target is_upper =
      maybe none
        (λ (dragged : Group).
          if (dragged.id == target.id) || not (same_id dragged.parent_id target.parent_id)
          then none
          else some (target.id, if is_upper then before else after))
        (find_group groups dragged_group_id)

  -- The order of the groups beside the target that is then saved, if one is.
  unfoldable pub handle_group_drop :
      List Group → List Host → Option String → Option Position → Group → Option (List Group)
  unfolding get_group_children insert_index
  handle_group_drop groups hosts dragged_group_id position target =
      maybe none
        (λ (dragged : Group).
          if (dragged.id == target.id) || not (same_id dragged.parent_id target.parent_id)
          then none
          else some (placed dragged (get_group_children groups hosts target.parent_id).0))
        (find_group groups dragged_group_id)
    where
      placed : Group → List Group → List Group
      placed dragged siblings =
          let reordered = filter (λ (g : Group). not (g.id == dragged.id)) siblings in
          insert_at
            (insert_index (find_index (λ (g : Group). g.id == target.id) reordered) position
              (length reordered))
            dragged reordered
