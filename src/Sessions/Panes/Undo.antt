-- ===== src/Sessions/Panes/Undo.antt =====
-- Splitting a pane and then closing the new one.
use connect_hub.Base.{
  ℕ, suc, ◌≤◌, ◌<◌, ◌≡◌, refl, subst, String, Bool, true, false, List, [], ◌∷◌, Option, none, some,
  arith, ◌==◌, is_some, occurs, occurs-append, hit, hit_le, scaled, ◌⊎◌, Bool-cases, Option-cases,
  inl, inr,
}
use connect_hub.Number.{Number}
use connect_hub.Bridge.{Host}
use connect_hub.PaneTree.{Direction, PaneNode, leaf, split, find_leaf, remove_leaf}
use connect_hub.PaneTree.Leaves.{pane_ids, find_leaf_of_occurs_zero, find_leaf_present}
use connect_hub.PaneTree.Splitting.{remove_leaf-split_leaf, found-split_leaf}
use connect_hub.Sessions.{terminal, OpenSession, SessionsState}
use connect_hub.Sessions.Invariant.{tab_panes, all_panes, Inv}
use connect_hub.Sessions.Panes.{
  close_leaf, close_in_session, with_layout, close_in_sessions, close_pane, split_in_session,
  split_in_sessions, split_pane,
}
use connect_hub.Sessions.Panes.Inversion.{close_in_session-some, split_in_session-some}
use connect_hub.Sessions.Panes.Counts.{tab_panes-some}
use connect_hub.Sessions.Panes.SplitCounts.{occurs-split_in_sessions}

module _ {W : Type 0} where
  close_leaf_found :
      (u t : PaneNode W) (q : String)
      → is_some (find_leaf u q) ≡ true
      → remove_leaf u q ≡ some t
      → close_leaf u q ≡ some t
  unfolding close_leaf remove_leaf find_leaf
  close_leaf_found (leaf l) t q f e = absurd (ground arith)
  close_leaf_found (split s d r a b) t q f e = rw f e

  close_in_session_found :
      (tab_id q : String) (o : OpenSession W) (u t : PaneNode W)
      → (o.tab_id == tab_id) ≡ true
      → o.kind ≡ terminal
      → is_some (find_leaf u q) ≡ true
      → remove_leaf u q ≡ some t
      → close_in_session tab_id q (record o { layout = some u }) ≡ some t
  unfolding close_in_session
  close_in_session_found tab_id q o u t same kind found e =
      rw (same, kind) (close_leaf_found u t q found e)

  -- A tab that does not have the pane is left alone.
  close_in_session_absent :
      (tab_id q : String) (o : OpenSession W)
      → occurs q (tab_panes o) ≡ 0
      → close_in_session tab_id q o ≡ none
  close_in_session_absent tab_id q o h = elim (Option-cases (close_in_session tab_id q o)) [
    | inl e ↦ e
    | inr (u, e) ↦
        let c = close_in_session-some tab_id q o u e in
        let gone : occurs q (pane_ids c.before) ≡ 0 =
          subst (λ ids. occurs q ids ≡ 0) (tab_panes-some o c.before c.layout) h in
        absurd (no_way c.found (find_leaf_of_occurs_zero c.before q gone))
  ]
    where
      no_way : {b : Bool} → b ≡ true → b ≡ false → ⊥
      no_way p q = cc

  same_layout :
      (o : OpenSession W) (t : PaneNode W) → o.layout ≡ some t → record o { layout = some t } ≡ o
  same_layout o t e = ground arith

module _ {W : Type 0} ⦃num : Number W⦄ (uuid : ℕ → String) (tab_id p : String) (d : Direction)
    (q : String) (host : Option Host) where
  -- One tab, split and closed again.
  undo_tab :
      (drawn : ℕ) (o : OpenSession W)
      → occurs p (tab_panes o) ≤ 1
      → occurs q (tab_panes o) ≡ 0
      → let next = (split_in_session uuid tab_id p d q host drawn o).0 in
        let o' = with_layout o next in
        (with_layout o' (close_in_session tab_id q o') ≡ o)
        × (is_some (close_in_session tab_id q o') ≡ is_some next)
  unfolding with_layout
  undo_tab drawn o once new =
      elim (Option-cases (split_in_session uuid tab_id p d q host drawn o).0) [
        | inl e ↦ let absent = close_in_session_absent tab_id q o new in rw (e, absent) (refl, refl)
        | inr (u, e) ↦
            let c = split_in_session-some uuid tab_id p d q host drawn o u e in
            let ids = tab_panes-some o c.before c.layout in
            let once' : occurs p (pane_ids c.before) ≤ 1 = subst (λ i. occurs p i ≤ 1) ids once in
            let new' : occurs q (pane_ids c.before) ≡ 0 = subst (λ i. occurs q i ≡ 0) ids new in
            let undone =
              close_in_session_found tab_id q o _ c.before c.tab c.kind
                (found-split_leaf uuid drawn c.before p d q c.new_host new' c.found)
                (remove_leaf-split_leaf uuid drawn c.before p d q c.new_host once' new') in
            rw (e, c.after, undone) (same_layout o c.before c.layout, refl)
      ]

  undo_tabs :
      (drawn : ℕ) (os : List (OpenSession W))
      → occurs p (all_panes os) ≤ 1
      → occurs q (all_panes os) ≡ 0
      → let r = split_in_sessions uuid tab_id p d q host drawn os in
        (close_in_sessions tab_id q r.0 ≡ (os, r.2))
  unfolding split_in_sessions close_in_sessions
  undo_tabs drawn [] once new = refl
  undo_tabs drawn (o ∷ os) once new =
      let sum_p = occurs-append p (tab_panes o) (all_panes os) in
      let sum_q = occurs-append q (tab_panes o) (all_panes os) in
      let (tab, flag) = undo_tab drawn o (omega (arith, sum_p)) (omega (arith, sum_q)) in
      let rest =
        undo_tabs (split_in_session uuid tab_id p d q host drawn o).1 os (omega (arith, sum_p))
          (omega (arith, sum_q)) in
      rw (tab, flag, rest)

  unchanged_tabs :
      (drawn : ℕ) (os : List (OpenSession W))
      → (split_in_sessions uuid tab_id p d q host drawn os).2 ≡ false
      → (split_in_sessions uuid tab_id p d q host drawn os).0 ≡ os
  unfolding split_in_sessions with_layout
  unchanged_tabs drawn [] e = refl
  unchanged_tabs drawn (o ∷ os) e =
      let next = split_in_session uuid tab_id p d q host drawn o in
      elim (Option-cases next.0) [
        | inl missed ↦ rw (missed, unchanged_tabs next.1 os (ground arith))
        | inr (u, made) ↦ absurd (ground arith)
      ]

  made_tabs :
      (drawn : ℕ) (os : List (OpenSession W))
      → occurs q (all_panes os) ≡ 0
      → (split_in_sessions uuid tab_id p d q host drawn os).2 ≡ true
      → 0 < occurs q (all_panes (split_in_sessions uuid tab_id p d q host drawn os).0)
  unfolding split_in_sessions with_layout
  made_tabs drawn [] new e = absurd (ground arith)
  made_tabs drawn (o ∷ os) new e =
      let next = split_in_session uuid tab_id p d q host drawn o in
      let rest = split_in_sessions uuid tab_id p d q host next.1 os in
      let sum = occurs-append q (tab_panes o) (all_panes os) in
      let sum' = occurs-append q (tab_panes (with_layout o next.0)) (all_panes rest.0) in
      elim (Option-cases next.0) [
        | inl missed ↦ omega (arith, sum', made_tabs next.1 os (omega (arith, sum)) (ground arith))
        | inr (u, made) ↦
            let c = split_in_session-some uuid tab_id p d q host drawn o u made in
            let ids = tab_panes-some o c.before c.layout in
            let new' : occurs q (pane_ids c.before) ≡ 0 =
              subst (λ i. occurs q i ≡ 0) ids (omega (arith, sum)) in
            let here =
              find_leaf_present _ q
                (found-split_leaf uuid drawn c.before p d q c.new_host new' c.found) in
            let there : 0 < occurs q (tab_panes (with_layout o next.0)) = rw (made, c.after) here in
            omega (arith, sum', there)
      ]

module _ {W : Type 0} ⦃num : Number W⦄ {uuid : ℕ → String} where
  -- In a state that keeps the invariant, closing the pane that `splitPane` draws an
  -- identifier for, directly after it, brings the open tabs back to what they were, whether
  -- or not the pane was made.
  pub close_pane-split_pane :
      (s : SessionsState W) (tab_id p : String) (d : Direction) (host : Option Host)
      → Inv uuid s
      → (close_pane (split_pane uuid s tab_id p d host).0 tab_id (uuid s.drawn)).open_sessions
        ≡ s.open_sessions
  unfolding close_pane split_pane
  close_pane-split_pane s tab_id p d host v =
      let q = uuid s.drawn in
      let r = split_in_sessions uuid tab_id p d q host (suc s.drawn) s.open_sessions in
      let undone =
        undo_tabs uuid tab_id p d q host (suc s.drawn) s.open_sessions (v.panes_distinct p)
          (v.panes_drawn s.drawn (omega arith)) in
      elim (Bool-cases r.2) [
        | inl made ↦ rw (undone, made)
        | inr none_made ↦
            rw (undone, none_made)
              (unchanged_tabs uuid tab_id p d q host (suc s.drawn) s.open_sessions none_made)
      ]

  -- In a state that keeps the invariant, `splitPane` either returns null and leaves the open
  -- tabs as they were, or returns the identifier it drew, which no pane had before and
  -- exactly one pane has after.
  pub split_pane_result :
      (s : SessionsState W) (tab_id p : String) (d : Direction) (host : Option Host)
      → Inv uuid s
      → let r = split_pane uuid s tab_id p d host in
        ((r.1 ≡ none) × (r.0.open_sessions ≡ s.open_sessions))
        ⊎ ((r.1 ≡ some (uuid s.drawn))
            × (occurs (uuid s.drawn) (all_panes s.open_sessions) ≡ 0)
            × (occurs (uuid s.drawn) (all_panes r.0.open_sessions) ≡ 1))
  unfolding split_pane
  split_pane_result s tab_id p d host v =
      let q = uuid s.drawn in
      let os = s.open_sessions in
      let new = v.panes_drawn s.drawn (omega arith) in
      elim (Bool-cases (split_in_sessions uuid tab_id p d q host (suc s.drawn) os).2) [
        | inl made ↦ rw made (
            inr (
              refl,
              new,
              omega (
                arith,
                made_tabs uuid tab_id p d q host (suc s.drawn) os new made,
                occurs-split_in_sessions uuid tab_id p d q host (suc s.drawn) q os,
                scaled (occurs p (all_panes os)) (hit q q) (v.panes_distinct p),
                hit_le q q,
              ),
            ))
        | inr none_made ↦
            rw none_made
              (inl (refl, unchanged_tabs uuid tab_id p d q host (suc s.drawn) os none_made))
      ]
