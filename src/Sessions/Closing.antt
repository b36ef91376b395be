-- ===== src/Sessions/Closing.antt =====
-- Closing a tab: what the store forgets, and what it keeps.
use connect_hub.Base.{
  ◌+◌, ◌≡◌, refl, ◌∙◌, String, true, not, List, [], ◌∷◌, map, none, some, arith, ◌==◌,
  if◌then◌else◌, find, filter, occurs, hit, hit-true, hit-false, Dict, delete, delete_all,
  Bool-cases, inl, inr, ltb,
}
use connect_hub.PaneTree.{PaneLeaf}
use connect_hub.Sessions.{OpenSession, SessionsState, close_session, leaves_of_tab}
use connect_hub.Sessions.Invariant.{tab_panes, tab_ids}

module _ {ℓ} {V : Type ℓ} where
  delete_all-none :
      (ks : List String) (m : Dict V) (j : String) → m j ≡ none → delete_all ks m j ≡ none
  delete_all-none [] m j e = e
  delete_all-none (k ∷ ks) m j e = delete_all-none ks (delete k m) j (ground arith)

  -- Deleting keys forgets those, and no other.
  pub delete_all_lem :
      (ks : List String) (m : Dict V) (j : String)
      → delete_all ks m j ≡ (if ltb 0 (occurs j ks) then none else m j)
  delete_all_lem [] m j = refl
  delete_all_lem (k ∷ ks) m j = elim (Bool-cases (k == j)) [
    | inl same ↦
        let there : ltb 0 (1 + occurs j ks) ≡ true = ground arith in
        rw (hit-true k j same, there) (delete_all-none ks (delete k m) j (rw same))
    | inr other ↦
        let same : hit k j + occurs j ks ≡ occurs j ks = omega (arith, hit-false k j other) in
        rw same (delete_all_lem ks (delete k m) j ∙ rw other)
  ]

module _ {W : Type 0} where
  filter-tab_ids :
      (tab_id : String) (os : List (OpenSession W))
      → occurs tab_id (tab_ids (filter (λ (o : OpenSession W). not (o.tab_id == tab_id)) os)) ≡ 0
  filter-tab_ids tab_id [] = refl
  filter-tab_ids tab_id (o ∷ os) = elim (Bool-cases (o.tab_id == tab_id)) [
    | inl same ↦ rw same (filter-tab_ids tab_id os)
    | inr other ↦
        rw other (omega (arith, hit-false o.tab_id tab_id other, filter-tab_ids tab_id os))
  ]

  leaves-tab_panes :
      (o : OpenSession W) → map (λ (l : PaneLeaf). l.pane_id) (leaves_of_tab o) ≡ tab_panes o
  leaves-tab_panes o = ground arith

  -- Closing an open tab takes every tab of that identifier away, forgets the status and the
  -- backend session of each of its panes, and keeps those of every other pane.
  pub close_session_forgets :
      (s : SessionsState W) (tab_id : String) (o : OpenSession W) (p : String)
      → find (λ (o : OpenSession W). o.tab_id == tab_id) s.open_sessions ≡ some o
      → let t = close_session s tab_id in
        let gone = ltb 0 (occurs p (tab_panes o)) in
        (occurs tab_id (tab_ids t.open_sessions) ≡ 0)
        × (t.statuses p ≡ (if gone then none else s.statuses p))
        × (t.session_ids p ≡ (if gone then none else s.session_ids p))
  unfolding close_session
  close_session_forgets s tab_id o p found = (
    filter-tab_ids tab_id s.open_sessions,
    rw (found, leaves-tab_panes o) (delete_all_lem (tab_panes o) s.statuses p),
    rw (found, leaves-tab_panes o) (delete_all_lem (tab_panes o) s.session_ids p),
  )
