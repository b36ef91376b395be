-- ===== src/HostTree.antt =====
-- src/components/sidebar/HostTree.tsx: which hosts and groups of the sidebar are shown while it is
-- searched or filtered by tags, and which groups are collapsed. `contains` is the platform's: whether
-- a text, in lower case, includes the query. A set is a list.
pub mod Searching
use connect_hub.Base.{
  ℕ, zero, suc, String, Bool, true, false, not, ◌&&◌, ◌||◌, List, [], ◌∷◌, map, Option, none, some,
  maybe, any, filter, ◌==◌, if◌then◌else◌,
}
use connect_hub.Bridge.{Group, Host, Tag}

abbrev pub has : String → List String → Bool
has id ids = any (λ i. i == id) ids

unfoldable pub toggle : String → List String → List String
toggle id ids = if has id ids then filter (λ i. not (i == id)) ids else id ∷ ids

-- Group identifiers, beside which sections have some of their own.
unfoldable pub expand_all_groups : List Group → List String → List String
expand_all_groups groups collapsed =
    filter (λ i. not (any (λ (g : Group). g.id == i) groups)) collapsed

unfoldable pub collapse_all_groups : List Group → List String → List String
collapse_all_groups [] collapsed = collapsed
collapse_all_groups (g ∷ gs) collapsed =
    let rest = collapse_all_groups gs collapsed in if has g.id rest then rest else g.id ∷ rest

-- The tags filtered by that some host still has.
unfoldable pub used_tags : List Host → List String → List String
used_tags hosts ids =
    filter (λ id. any (λ (h : Host). any (λ (t : Tag). t.id == id) h.tags) hosts) ids

abbrev pub is_in : String → Option String → Bool
is_in group_id parent = maybe false (λ p. p == group_id) parent

module _ (query : String) (tag_filter : List String) where
  abbrev pub is_filtering : Bool
  is_filtering = not (query == "") || any (λ i. true) tag_filter

module _ (contains : String → String → Bool) (query : String) (tag_filter : List String) where
  unfoldable pub host_matches : Host → Bool
  host_matches h =
      let text_ok =
        (query == "")
        || (contains h.label query
            || (contains h.hostname query || any (λ (t : Tag). contains t.label query) h.tags)) in
      let tag_ok =
        not (any (λ i. true) tag_filter) || any (λ (t : Tag). has t.id tag_filter) h.tags in
      not (is_filtering query tag_filter) || (text_ok && tag_ok)

module _ (contains : String → String → Bool) (query : String) (tag_filter : List String)
    (groups : List Group) (hosts : List Host) where
  -- `groupHasMatch`, into so many levels of groups.
  unfoldable pub group_has_match : ℕ → String → Bool
  unfolding host_matches
  group_has_match zero group_id = false
  group_has_match (suc depth) group_id =
      not (is_filtering query tag_filter)
      || (any (λ (h : Host). is_in group_id h.group_id && host_matches contains query tag_filter h)
            hosts
          || any (λ (g : Group). is_in group_id g.parent_id && group_has_match depth g.id) groups)
