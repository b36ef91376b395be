-- ===== src/Shell/Tabs/Shown.antt =====
-- src/pages/AppShell.tsx: whether the view shows an open tab, and what the actions of the sessions
-- store do to the tabs that are open.
use connect_hub.Base.{
  ℕ, ℤ, zero, suc, hit_self, Option-cases, eq_iff, ◌≤◌, ◌≡◌, refl, ap, subst, String, Bool, false,
  not, List, [], ◌∷◌, Option, none, some, maybe, find, filter, ◌==◌, arith, Bool-cases, inl, inr,
  occurs, hit, get_last?, get_elem?,
}
use connect_hub.Number.{Number}
use connect_hub.Bridge.{Host}
use connect_hub.PaneTree.{Direction, PaneNode}
use connect_hub.Sessions.{OpenSession, SessionsState, toggle_broadcast}
use connect_hub.Sessions.Panes.{
  split_pane, close_pane, set_layout, resize_pane_split, close_in_sessions,
}
use connect_hub.Sessions.Reorder.{reorder_sessions, reorder_sessions_cases}
use connect_hub.Sessions.Panes.Counts.{tab_id-with_layout, tab_ids-close_in_sessions}
use connect_hub.Sessions.Panes.SplitCounts.{tab_ids-split_in_sessions}
use connect_hub.Sessions.Invariant.{tab_ids}
use connect_hub.Sessions.Invariant.Lists.{map_same, total_moved, occurs-tab_ids}
use connect_hub.Shell.{ManageTab, MainView}
use connect_hub.Shell.Tabs.{view_left}

module _ {W : Type 0} where
  abbrev pub IsOpen : String → List (OpenSession W) → Type 0
  IsOpen t os = 1 ≤ occurs t (tab_ids os)

  abbrev pub ShowsOpen : MainView → List (OpenSession W) → Type 0
  ShowsOpen (MainView.manage tab) os = Unit
  ShowsOpen (MainView.session t) os = IsOpen t os

  pub ShowsOpen-grows :
      (v : MainView) (os ps : List (OpenSession W))
      → ((t : String) → occurs t (tab_ids os) ≤ occurs t (tab_ids ps))
      → ShowsOpen v os
      → ShowsOpen v ps
  ShowsOpen-grows (MainView.manage tab) os ps g h = tt
  ShowsOpen-grows (MainView.session t) os ps g h = omega (arith, g t)

  -- A tab found among the open ones.
  abbrev pub FoundOpen : Option (OpenSession W) → List (OpenSession W) → Type 0
  FoundOpen none os = Unit
  FoundOpen (some o) os = IsOpen o.tab_id os

  pub IsOpen-first : (o : OpenSession W) (os : List (OpenSession W)) → IsOpen o.tab_id (o ∷ os)
  IsOpen-first o os = omega (arith, hit_self o.tab_id)

  pub FoundOpen-later :
      (r : Option (OpenSession W)) (o : OpenSession W) (os : List (OpenSession W))
      → FoundOpen r os
      → FoundOpen r (o ∷ os)
  FoundOpen-later none o os h = tt
  FoundOpen-later (some x) o os h = omega arith

  pub FoundOpen-some :
      {r : Option (OpenSession W)} {o : OpenSession W} (os : List (OpenSession W))
      → FoundOpen r os
      → r ≡ some o
      → IsOpen o.tab_id os
  FoundOpen-some os h e = subst (λ r. FoundOpen r os) e h

  pub find-FoundOpen :
      (p : OpenSession W → Bool) (os : List (OpenSession W)) → FoundOpen (find p os) os
  find-FoundOpen p [] = tt
  find-FoundOpen p (x ∷ os) = elim (Bool-cases (p x)) [
    | inl match ↦ rw match (IsOpen-first x os)
    | inr miss ↦ rw miss (FoundOpen-later (find p os) x os (find-FoundOpen p os))
  ]

  pub get_elem?-FoundOpen : (os : List (OpenSession W)) (i : ℕ) → FoundOpen (get_elem? os i) os
  get_elem?-FoundOpen [] i = tt
  get_elem?-FoundOpen (x ∷ os) zero = IsOpen-first x os
  get_elem?-FoundOpen (x ∷ os) (suc i) =
      FoundOpen-later (get_elem? os i) x os (get_elem?-FoundOpen os i)

  pub get_last?-FoundOpen : (os : List (OpenSession W)) → FoundOpen (get_last? os) os
  get_last?-FoundOpen [] = tt
  get_last?-FoundOpen (x ∷ []) = IsOpen-first x []
  get_last?-FoundOpen (x ∷ y ∷ os) =
      FoundOpen-later (get_last? (y ∷ os)) x (y ∷ os) (get_last?-FoundOpen (y ∷ os))

  pub filter-keeps :
      (t tab_id : String) (os : List (OpenSession W))
      → (t == tab_id) ≡ false
      → IsOpen t os
      → IsOpen t (filter (λ (o : OpenSession W). not (o.tab_id == tab_id)) os)
  unfolding hit
  filter-keeps t tab_id [] e h = h
  filter-keeps t tab_id (o ∷ os) e h = elim (Bool-cases (o.tab_id == tab_id)) [
    | inl gone ↦ rw gone (
        filter-keeps t tab_id os e
          (ground (arith, eq_iff o.tab_id tab_id, eq_iff t tab_id, eq_iff o.tab_id t)))
    | inr kept ↦ rw kept (elim (Bool-cases (o.tab_id == t)) [
      | inl here ↦ rw here (omega arith)
      | inr there ↦ rw there (omega (arith, filter-keeps t tab_id os e (ground (arith, there))))
    ])
  ]

  pub view_left-ShowsOpen :
      (tab_id : String) (v : MainView) (os : List (OpenSession W))
      → ShowsOpen v os
      → let kept = filter (λ (o : OpenSession W). not (o.tab_id == tab_id)) os in
        ShowsOpen (view_left tab_id v kept) kept
  unfolding view_left
  view_left-ShowsOpen tab_id (MainView.manage tab) os h = tt
  view_left-ShowsOpen tab_id (MainView.session t) os h = elim (Bool-cases (t == tab_id)) [
    | inl gone ↦ rw gone (fallback (filter (λ (o : OpenSession W). not (o.tab_id == tab_id)) os))
    | inr kept ↦ rw kept (filter-keeps t tab_id os kept h)
  ]
    where
      fallback :
          (kept : List (OpenSession W))
          → ShowsOpen
              (maybe
                (MainView.manage ManageTab.hosts)
                (λ (o : OpenSession W). MainView.session o.tab_id)
                (get_last? kept))
              kept
      fallback kept = elim (Option-cases (get_last? kept)) [
        | inl e ↦ rw e tt
        | inr (o, e) ↦ rw e (FoundOpen-some kept (get_last?-FoundOpen kept) e)
      ]

module _ {W : Type 0} where
  -- Where the view shows an open tab, and the sessions are replaced by some with as many tabs.
  pub keeps_tabs :
      (v : MainView) (os ps : List (OpenSession W))
      → tab_ids ps ≡ tab_ids os
      → ShowsOpen v os
      → ShowsOpen v ps
  keeps_tabs v os ps same h = ShowsOpen-grows v os ps (λ t. omega (arith, ap (occurs t) same)) h

  pub occurs-reorder_sessions :
      (s : SessionsState W) (i j : ℤ) (x : String)
      → occurs x (tab_ids (reorder_sessions s i j).open_sessions)
        ≡ occurs x (tab_ids s.open_sessions)
  occurs-reorder_sessions s i j x =
      reorder_sessions_cases (λ os. occurs x (tab_ids os) ≡ occurs x (tab_ids s.open_sessions)) s i
        j refl
        λ n k o e. omega (
          arith,
          occurs-tab_ids x s.open_sessions,
          occurs-tab_ids x _,
          total_moved (λ (o : OpenSession W). hit o.tab_id x) s.open_sessions n k e,
        )

  pub tab_ids-close_pane :
      (s : SessionsState W) (tab_id p : String)
      → tab_ids (close_pane s tab_id p).open_sessions ≡ tab_ids s.open_sessions
  unfolding close_pane
  tab_ids-close_pane s tab_id p = elim (Bool-cases (close_in_sessions tab_id p s.open_sessions).1) [
    | inr kept ↦ rw kept refl
    | inl removed ↦ rw removed (tab_ids-close_in_sessions tab_id p s.open_sessions)
  ]

  pub tab_ids-set_layout :
      (tab_id : String) (t : PaneNode W) (s : SessionsState W)
      → tab_ids (set_layout s tab_id t).open_sessions ≡ tab_ids s.open_sessions
  unfolding set_layout
  tab_ids-set_layout tab_id t s = map_same _ s.open_sessions (λ o. ground arith)

  pub tab_ids-toggle_broadcast :
      (tab_id : String) (s : SessionsState W)
      → tab_ids (toggle_broadcast s tab_id).open_sessions ≡ tab_ids s.open_sessions
  unfolding toggle_broadcast
  tab_ids-toggle_broadcast tab_id s = map_same _ s.open_sessions (λ o. ground arith)

module _ {W : Type 0} ⦃num : Number W⦄ where
  pub tab_ids-resize_pane_split :
      (tab_id split_id : String) (ratio : W) (s : SessionsState W)
      → tab_ids (resize_pane_split s tab_id split_id ratio).open_sessions ≡ tab_ids s.open_sessions
  unfolding resize_pane_split
  tab_ids-resize_pane_split tab_id split_id ratio s = map_same _ s.open_sessions (λ o.
      elim (Bool-cases (o.tab_id == tab_id)) [
        | inl same ↦ rw same (tab_id-with_layout o _)
        | inr other ↦ rw other refl
      ])

  pub tab_ids-split_pane :
      (uuid : ℕ → String) (s : SessionsState W) (tab_id p : String) (d : Direction)
      (host : Option Host)
      → tab_ids (split_pane uuid s tab_id p d host).0.open_sessions ≡ tab_ids s.open_sessions
  unfolding split_pane
  tab_ids-split_pane uuid s tab_id p d host =
      tab_ids-split_in_sessions uuid tab_id p d (uuid s.drawn) host (suc s.drawn) s.open_sessions
