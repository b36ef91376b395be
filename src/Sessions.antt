-- ===== src/Sessions.antt =====
-- src/state/sessionsStore.ts: the open tabs, and the status and backend session of every pane. `drawn`
-- is the number of identifiers drawn so far from the platform's supply `uuid`. Each store action is
-- a function from the state to the new state, paired with what it returns.
pub mod Panes
pub mod Reorder
pub mod Invariant
pub mod Reach
pub mod Closing
use connect_hub.Base.{
  ℕ, zero, suc, ◌+◌, ◌-◌, String, Bool, true, false, not, ◌&&◌, ◌||◌, List, [], ◌∷◌, ◌++◌, map,
  Option, none, some, ◌==◌, if◌then◌else◌, is_some, get_or_else, maybe, find, filter, head?, length,
  leb, ltb, eqb, min, max, is_truthy, get_elem?, take, drop, Dict, insert, delete, delete_all,
  empty, ℤ, pos, negsuc,
}
use connect_hub.Number.{Number}
use connect_hub.Bridge.{Host}
use connect_hub.PaneTree.{
  Direction, PaneLeaf, PaneNode, leaf, split, count_leaves, find_leaf, collect_leaves, remove_leaf,
  resize_split, split_leaf,
}

pub data SessionKind : Type 0 where
  terminal sftp : SessionKind

pub data SessionStatus : Type 0 where
  connecting connected closed error reconnecting : SessionStatus

pub record OpenSession (W : Type 0) : Type 0 where
  pub tab_id : String
  pub kind : SessionKind
  pub host : Host
  pub layout : Option (PaneNode W)
  pub broadcast_enabled : Bool

pub record SessionsState (W : Type 0) : Type 0 where
  pub open_sessions : List (OpenSession W)
  pub statuses : Dict SessionStatus
  pub session_ids : Dict String
  pub drawn : ℕ

abbrev pub max_panes : ℕ
max_panes = 9

abbrev pub is_terminal : SessionKind → Bool
is_terminal terminal = true
is_terminal sftp = false

module _ {W : Type 0} where
  abbrev pub initial : SessionsState W
  initial = record { open_sessions = []; statuses = empty; session_ids = empty; drawn = 0 }

  abbrev pub leaves_of_tab : OpenSession W → List PaneLeaf
  leaves_of_tab o = maybe [] collect_leaves o.layout

  unfoldable pub find_live_session_id : List (OpenSession W) → Dict String → String → Option String
  find_live_session_id open_sessions session_ids host_id =
      let terminal_tab = find (λ o. (o.host.id == host_id) && is_terminal o.kind) open_sessions in
      let first_pane_id =
        maybe none (λ o. maybe none (λ (l : PaneLeaf). some l.pane_id) (head? (leaves_of_tab o)))
          terminal_tab in
      maybe none (λ p. if p == "" then none else session_ids p) first_pane_id

  unfoldable pub close_session : SessionsState W → String → SessionsState W
  close_session s tab_id =
      let closing = find (λ o. o.tab_id == tab_id) s.open_sessions in
      let gone = map (λ (l : PaneLeaf). l.pane_id) (maybe [] leaves_of_tab closing) in
      record s {
        open_sessions = filter (λ o. not (o.tab_id == tab_id)) s.open_sessions;
        statuses = delete_all gone s.statuses;
        session_ids = delete_all gone s.session_ids;
      }

  unfoldable pub set_status : SessionsState W → String → SessionStatus → SessionsState W
  set_status s pane_id status = record s { statuses = insert pane_id status s.statuses }

  unfoldable pub set_session_id : SessionsState W → String → String → SessionsState W
  set_session_id s pane_id session_id = record s {
    session_ids = insert pane_id session_id s.session_ids;
  }

  unfoldable pub toggle_broadcast : SessionsState W → String → SessionsState W
  toggle_broadcast s tab_id = record s {
    open_sessions =
        map
          (λ o.
            if o.tab_id == tab_id
            then record o { broadcast_enabled = not o.broadcast_enabled }
            else o)
          s.open_sessions;
  }

module _ {W : Type 0} (uuid : ℕ → String) where
  unfoldable pub first_layout : ℕ → SessionKind → Host → Option (PaneNode W) × ℕ
  first_layout drawn terminal host =
      (some (leaf (record { pane_id = uuid drawn; host = host })), suc drawn)
  first_layout drawn sftp host = (none, drawn)

  unfoldable pub open_session : SessionsState W → Host → SessionKind → SessionsState W × String
  unfolding first_layout
  open_session s host kind =
      let tab_id = uuid s.drawn in
      let (layout, drawn) = first_layout (suc s.drawn) kind host in
      let opened : OpenSession W = record {
        tab_id = tab_id;
        kind = kind;
        host = host;
        layout = layout;
        broadcast_enabled = false;
      } in
      (record s { open_sessions = s.open_sessions ++ (opened ∷ []); drawn = drawn }, tab_id)
