-- ===== src/Shell/Workspaces/Connecting.antt =====
-- src/pages/AppShell.tsx: what connecting, restoring and the gates of other hosts do to the open tabs.
use connect_hub.Base.{
  ℕ, ◌+◌, ◌≡◌, refl, sym, ap, ◌∙◌, String, Bool, true, List, [], ◌∷◌, ◌++◌, map, Option, none, some,
  find, ◌==◌, if◌then◌else◌, arith, Bool-cases, inl, inr, occurs, hit_zero, eq_refl,
}
use connect_hub.Number.{Number}
use connect_hub.Bridge.{Host}
use connect_hub.PaneTree.{PaneNode, count_leaves}
use connect_hub.PaneTree.Saved.{SerializedPaneNode, serialize_layout}
use connect_hub.Assistant.Actions.{VpnGateResult}
use connect_hub.Sessions.{SessionKind, terminal, OpenSession, open_session}
use connect_hub.Sessions.Invariant.{tab_ids}
use connect_hub.Shell.{Shell}
use connect_hub.Shell.Tabs.{
  begin_gate, end_gate, terminal_of, handle_connect, open_tab, show_tab, after_gate, connect,
}
use connect_hub.Shell.Tabs.Twice.{
  is_terminal_of, terminals, sessions-begin_gate, sessions-end_gate, answer-end_gate,
}
use connect_hub.Shell.Workspaces.{gate_others}

module _ {W : Type 0} where
  pub find-append :
      (p : OpenSession W → Bool) (os : List (OpenSession W)) (o : OpenSession W)
      → find p os ≡ none
      → p o ≡ true
      → find p (os ++ (o ∷ [])) ≡ some o
  find-append p [] o none_before last = rw last refl
  find-append p (x ∷ os) o none_before last = ground (arith, find-append p os o, none_before, last)

  pub find-none :
      (i : String) (os : List (OpenSession W))
      → terminals i os ≡ 0
      → find (is_terminal_of i) os ≡ none
  unfolding terminals
  find-none i [] e = refl
  find-none i (o ∷ os) e = ground (arith, find-none i os)

  -- Setting the layout of the last tab, whose identifier no other one has.
  pub set_last :
      (tab_id : String) (u : PaneNode W) (os : List (OpenSession W)) (o : OpenSession W)
      → o.tab_id ≡ tab_id
      → occurs tab_id (tab_ids os) ≡ 0
      → map
          (λ (x : OpenSession W). if x.tab_id == tab_id then record x { layout = some u } else x)
          (os ++ (o ∷ []))
        ≡ os ++ (record o { layout = some u } ∷ [])
  set_last tab_id u [] o same others = ground (arith, same, eq_refl tab_id)
  set_last tab_id u (x ∷ os) o same others =
      rw (hit_zero x.tab_id tab_id (omega arith))
        (ap (λ r. x ∷ r) (set_last tab_id u os o same (omega arith)))

  -- The number of panes can be read off the saved layout.
  pub saved_panes : SerializedPaneNode W → ℕ
  saved_panes (SerializedPaneNode.leaf host_id) = 1
  saved_panes (SerializedPaneNode.split d r a b) = saved_panes a + saved_panes b

  pub saved_panes-serialize_layout :
      (t : PaneNode W) → saved_panes (serialize_layout t) ≡ count_leaves t
  unfolding saved_panes serialize_layout count_leaves
  saved_panes-serialize_layout (PaneNode.leaf l) = refl
  saved_panes-serialize_layout (PaneNode.split s d r a b) =
      rw (saved_panes-serialize_layout a, saved_panes-serialize_layout b)

  pub same_panes :
      (t u : PaneNode W) → serialize_layout u ≡ serialize_layout t → count_leaves u ≡ count_leaves t
  same_panes t u e =
      sym (saved_panes-serialize_layout u) ∙ ap saved_panes e ∙ saved_panes-serialize_layout t

module _ {W : Type 0} ⦃num : Number W⦄ (uuid : ℕ → String) where
  -- Connecting where the gate lets through opens a tab and does nothing else to the sessions.
  pub sessions-after_gate :
      (s : Shell W) (host : Host) (kind : SessionKind) (r : VpnGateResult)
      → r.is_ok ≡ true
      → (after_gate uuid (begin_gate s host) host kind r).sessions
        ≡ (open_session uuid s.sessions host kind).0
  unfolding after_gate open_tab show_tab
  sessions-after_gate s host kind r up =
      let t = begin_gate s host in
      rw (answer-end_gate uuid t host r up) (
        ap (λ x. (open_session uuid x host kind).0)
          (sessions-end_gate t host r ∙ sessions-begin_gate s host))

  pub sessions-connect :
      (s : Shell W) (host : Host) (r : VpnGateResult)
      → r.is_ok ≡ true
      → terminals host.id s.sessions.open_sessions ≡ 0
      → (connect uuid s host r).sessions ≡ (open_session uuid s.sessions host terminal).0
  unfolding connect handle_connect terminal_of
  sessions-connect s host r up free =
      rw (find-none host.id s.sessions.open_sessions free)
        (sessions-after_gate s host terminal r up)

  pub sessions-gate_others :
      (parse : String → Option (SerializedPaneNode W)) (gate : Host → VpnGateResult)
      (all_hosts : List Host) (s : Shell W) (host : Host) (hs : List Host)
      → (gate_others uuid parse gate all_hosts s host hs).sessions ≡ s.sessions
  unfolding gate_others
  sessions-gate_others parse gate all_hosts s host [] = refl
  sessions-gate_others parse gate all_hosts s host (h ∷ hs) =
      sessions-gate_others parse gate all_hosts
        (if h.id == host.id then s else (end_gate (begin_gate s h) h (gate h)).0) host hs
      ∙ asked
    where
      asked :
          (if h.id == host.id then s else (end_gate (begin_gate s h) h (gate h)).0).sessions
          ≡ s.sessions
      asked = elim (Bool-cases (h.id == host.id)) [
        | inl same ↦ rw same refl
        | inr other ↦
            rw other (sessions-end_gate (begin_gate s h) h (gate h) ∙ sessions-begin_gate s h)
      ]
