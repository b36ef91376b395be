-- ===== src/Sessions/Invariant/Tabs.antt =====
-- Opening, closing, dragging and toggling tabs keep the invariant.
use connect_hub.Base.{
  ℕ, suc, ◌≤◌, ◌≡◌, refl, ap, String, false, not, [], ◌∷◌, map, arith, ◌==◌, occurs, hit, All,
  All-append, filter, ℤ, Bool-cases, inl, inr,
}
use connect_hub.Uuid.{IsUuid, DrawnIn, DrawnIn-beside, DrawnIn-later, DrawnIn-nil, DrawnIn-one}
use connect_hub.Number.{Number}
use connect_hub.Bridge.{Host}
use connect_hub.PaneTree.{count_leaves, collect_leaves}
use connect_hub.Sessions.{
  SessionKind, terminal, sftp, OpenSession, SessionsState, first_layout, open_session,
  close_session, toggle_broadcast,
}
use connect_hub.Sessions.Reorder.{reorder_sessions, reorder_sessions_cases, drawn-reorder_sessions}
use connect_hub.Sessions.Invariant.{tab_panes, all_panes, tab_ids, Shaped, ShapedAs, Inv}
use connect_hub.Sessions.Invariant.Lists.{
  total-filter_le, All-filter, total_moved, All-moved, occurs-tab_ids, occurs-all_panes, map_same,
  map_same_panes, All-map, tab_ids-append, all_panes-append,
}

module _ {W : Type 0} ⦃num : Number W⦄ {uuid : ℕ → String} where
  -- What follows when no identifier occurs more often than before.
  pub Inv-fewer :
      (s t : SessionsState W)
      → Inv uuid s
      → s.drawn ≤ t.drawn
      → ((x : String) → occurs x (tab_ids t.open_sessions) ≤ occurs x (tab_ids s.open_sessions))
      → ((x : String) → occurs x (all_panes t.open_sessions) ≤ occurs x (all_panes s.open_sessions))
      → All Shaped t.open_sessions
      → Inv uuid t
  Inv-fewer s t v later tabs panes shaped = record {
    tabs_distinct = λ x. omega (arith, tabs x, v.tabs_distinct x);
    panes_distinct = λ x. omega (arith, panes x, v.panes_distinct x);
    tabs_drawn = λ k h. omega (arith, tabs (uuid k), v.tabs_drawn k (omega arith));
    panes_drawn = λ k h. omega (arith, panes (uuid k), v.panes_drawn k (omega arith));
    shaped = shaped;
  }

  pub close_session-Inv :
      (s : SessionsState W) (tab_id : String) → Inv uuid s → Inv uuid (close_session s tab_id)
  unfolding close_session
  close_session-Inv s tab_id v =
      let kept = λ (o : OpenSession W). not (o.tab_id == tab_id) in
      let os = s.open_sessions in
      Inv-fewer s _ v (omega arith)
        (λ x. omega (
          arith,
          occurs-tab_ids x os,
          occurs-tab_ids x (filter kept os),
          total-filter_le (λ (o : OpenSession W). hit o.tab_id x) kept os,
        ))
        (λ x. omega (
          arith,
          occurs-all_panes x os,
          occurs-all_panes x (filter kept os),
          total-filter_le (λ (o : OpenSession W). occurs x (tab_panes o)) kept os,
        ))
        (All-filter Shaped kept os v.shaped)

  pub reorder_sessions-Inv :
      (s : SessionsState W) (i j : ℤ) → Inv uuid s → Inv uuid (reorder_sessions s i j)
  reorder_sessions-Inv s i j v =
      Inv-fewer s _ v (omega (arith, drawn-reorder_sessions s i j))
        (λ x.
          reorder_sessions_cases (λ os. occurs x (tab_ids os) ≤ occurs x (tab_ids s.open_sessions))
            s i j (omega arith)
            λ n k o e. omega (
              arith,
              occurs-tab_ids x s.open_sessions,
              occurs-tab_ids x _,
              total_moved (λ (o : OpenSession W). hit o.tab_id x) s.open_sessions n k e,
            ))
        (λ x.
          reorder_sessions_cases
            (λ os. occurs x (all_panes os) ≤ occurs x (all_panes s.open_sessions)) s i j
            (omega arith)
            λ n k o e. omega (
              arith,
              occurs-all_panes x s.open_sessions,
              occurs-all_panes x _,
              total_moved (λ (o : OpenSession W). occurs x (tab_panes o)) s.open_sessions n k e,
            ))
        (reorder_sessions_cases (All Shaped) s i j v.shaped
          (λ n k o e. All-moved Shaped s.open_sessions n k e v.shaped))

  -- A change of tabs one by one that keeps their identifiers and panes.
  pub map-Inv :
      (f : OpenSession W → OpenSession W) (s : SessionsState W)
      → ((o : OpenSession W) → (f o).tab_id ≡ o.tab_id)
      → ((o : OpenSession W) → tab_panes (f o) ≡ tab_panes o)
      → ((o : OpenSession W) → Shaped o → Shaped (f o))
      → Inv uuid s
      → Inv uuid (record s { open_sessions = map f s.open_sessions })
  map-Inv f s ids panes keep v =
      let os = s.open_sessions in
      Inv-fewer s _ v (omega arith) (λ x. omega (arith, ap (occurs x) (map_same f os ids)))
        (λ x. omega (arith, ap (occurs x) (map_same_panes f os panes)))
        (All-map Shaped f os keep v.shaped)

  pub toggle_broadcast-Inv :
      (s : SessionsState W) (tab_id : String) → Inv uuid s → Inv uuid (toggle_broadcast s tab_id)
  unfolding toggle_broadcast
  toggle_broadcast-Inv s tab_id v =
      map-Inv _ s (λ o. ground arith) (λ o. ground arith)
        (λ o h. elim (Bool-cases (o.tab_id == tab_id)) [
          | inl same ↦ rw same h
          | inr other ↦ rw other h
        ])
        v

first_layout-le :
    (W : Type 0) (uuid : ℕ → String) (drawn : ℕ) (host : Host) (k : SessionKind)
    → drawn ≤ (first_layout {W = W} uuid drawn k host).1
unfolding first_layout
first_layout-le W uuid drawn host terminal = omega arith
first_layout-le W uuid drawn host sftp = omega arith

Shaped-first_layout :
    (W : Type 0) ⦃num : Number W⦄ (uuid : ℕ → String) (drawn : ℕ) (k : SessionKind) (host : Host)
    → ShapedAs {W = W} k (first_layout {W = W} uuid drawn k host).0
unfolding first_layout count_leaves
Shaped-first_layout W uuid drawn terminal host = (omega arith, tt)
Shaped-first_layout W uuid drawn sftp host = tt

module _ {W : Type 0} (uuid : ℕ → String) (drawn : ℕ) (host : Host) where
  panes-first_layout :
      (k : SessionKind) (o : OpenSession W)
      → o.layout ≡ (first_layout uuid drawn k host).0
      → DrawnIn uuid drawn (first_layout {W = W} uuid drawn k host).1 (tab_panes o)
  unfolding first_layout collect_leaves
  panes-first_layout terminal o e = rw e (DrawnIn-one uuid drawn)
  panes-first_layout sftp o e = rw e (DrawnIn-nil uuid drawn)

module _ {W : Type 0} ⦃num : Number W⦄ {uuid : ℕ → String} (u : IsUuid uuid) where
  pub open_session-Inv :
      (s : SessionsState W) (host : Host) (k : SessionKind)
      → Inv uuid s
      → Inv uuid (open_session uuid s host k).0
  unfolding open_session
  open_session-Inv s host k v =
      let os = s.open_sessions in
      let first = first_layout {W = W} uuid (suc s.drawn) k host in
      let opened : OpenSession W = record {
        tab_id = uuid s.drawn;
        kind = k;
        host = host;
        layout = first.0;
        broadcast_enabled = false;
      } in
      let tab = DrawnIn-one uuid s.drawn in
      let panes = panes-first_layout uuid (suc s.drawn) host k opened refl in
      let later = first_layout-le W uuid (suc s.drawn) host k in
      record {
        tabs_distinct = λ x. omega (
          arith,
          tab_ids-append os opened x,
          DrawnIn-beside uuid tab (tab_ids os) x (v.tabs_distinct x) v.tabs_drawn,
        );
        panes_distinct = λ x. omega (
          arith,
          all_panes-append os opened x,
          DrawnIn-beside uuid panes (all_panes os) x (v.panes_distinct x)
              (λ n h. v.panes_drawn n (omega arith)),
        );
        tabs_drawn = λ n h. omega (
          arith,
          tab_ids-append os opened (uuid n),
          v.tabs_drawn n (omega (arith, later)),
          DrawnIn-later uuid tab u n (omega (arith, later)),
        );
        panes_drawn = λ n h. omega (
          arith,
          all_panes-append os opened (uuid n),
          v.panes_drawn n (omega (arith, later)),
          DrawnIn-later uuid panes u n h,
        );
        shaped =
            All-append Shaped os (opened ∷ []) v.shaped
              (Shaped-first_layout W uuid (suc s.drawn) k host, tt);
      }
