-- ===== src/Tests/Searches.antt =====
-- src/components/sidebar/HostTree.tsx: a host two groups deep that is searched for.
use connect_hub.Base.{
  sort_by, insert_by, ℕ, zero, suc, ◌<◌, ◌≡◌, refl, subst, String, Bool, true, List, [], ◌∷◌,
  Option, none, some, arith, get_elem?, ◌==◌, if◌then◌else◌,
}
use connect_hub.Bridge.{Group, Host}
use connect_hub.Shell.Groups.{after, get_group_children, group_before, handle_group_drop}
use connect_hub.HostTree.{group_has_match}
use connect_hub.HostTree.Searching.{Inside, group_has_match_lem}
use connect_hub.Tests.{web, db}

abbrev servers : Group
servers = record { id = "servers"; parent_id = none; name = "Servers"; sort_order = 0 }

abbrev europe : Group
europe = record { id = "eu"; parent_id = some "servers"; name = "Europe"; sort_order = 0 }

abbrev groups : List Group
groups = servers ∷ europe ∷ []

abbrev placed : List Host
placed = web ∷ record db { group_id = some "eu" } ∷ []

abbrev same_text : String → String → Bool
same_text text query = text == query

abbrev rank : String → ℕ
rank id = if id == "servers" then 1 else 0

abbrev Below : String → Option String → Type 0
Below id none = Unit
Below id (some p) = rank id < rank p

abbrev BelowParent : Option Group → Type 0
BelowParent none = Unit
BelowParent (some g) = Below g.id g.parent_id

below_parent :
    (i : ℕ) (g : Group) (p : String)
    → get_elem? groups i ≡ some g
    → g.parent_id ≡ some p
    → rank g.id < rank p
below_parent zero g p place parent = subst (Below g.id) parent (subst BelowParent place tt)
below_parent (suc zero) g p place parent =
    subst (Below g.id) parent (subst BelowParent place (omega arith))
below_parent (suc (suc i)) g p place parent = ground (arith, place)

group_has_match_lem_example :
    (group_has_match same_text "db" [] groups placed 2 "servers" ≡ true
      → Inside same_text "db" [] groups placed "servers")
    × (Inside same_text "db" [] groups placed "servers"
        → group_has_match same_text "db" [] groups placed 2 "servers" ≡ true)
group_has_match_lem_example =
    group_has_match_lem same_text "db" [] groups placed rank below_parent refl 2 "servers"
      (omega arith)

abbrev asia : Group
asia = record { id = "as"; parent_id = some "servers"; name = "Asia"; sort_order = 1 }

abbrev all_groups : List Group
all_groups = asia ∷ servers ∷ europe ∷ []

abbrev by_place : String → String → Bool
by_place a b = true

-- Europe stands before Asia, and is dropped behind it.
dropped :
    handle_group_drop by_place all_groups [] (some "eu") (some after) asia
    ≡ some (asia ∷ europe ∷ [])
unfolding handle_group_drop get_group_children group_before sort_by insert_by
dropped = refl
