-- ===== src/Terminal/Broadcast.antt =====
-- To which backend sessions typed data is written: the pane's own, and with broadcast on those of
-- the other panes of its tab. Each is read from the stores on every keystroke.
use mathlib.Core.List.{Perm, perm_append_comm}
use mathlib.Core.List.Perm
use connect_hub.Base.{
  ◌≡◌, refl, sym, subst, String, true, List, [], ◌∷◌, ◌++◌, map, append_assoc, Option, none, some,
  ◌==◌, if◌then◌else◌, maybe, find, Dict, occurs, hit-true, hit-false, eq_iff, arith, Bool-cases,
  inl, inr,
}
use connect_hub.PaneTree.{PaneLeaf}
use connect_hub.Sessions.{OpenSession, leaves_of_tab}

-- A session that is there: an empty identifier is not.
abbrev pub live : Option String → List String
live none = []
live (some id) = if id == "" then [] else id ∷ []

unfoldable pub siblings : Dict String → String → List PaneLeaf → List String
siblings session_ids pane_id [] = []
siblings session_ids pane_id (l ∷ ls) =
    if l.pane_id == pane_id
    then siblings session_ids pane_id ls
    else live (session_ids l.pane_id) ++ siblings session_ids pane_id ls

module _ {W : Type 0} where
  unfoldable pub write_targets :
      List (OpenSession W) → Dict String → Option String → String → String → List String
  unfolding siblings
  write_targets open_sessions session_ids own tab_id pane_id =
      live own
      ++ maybe []
          (λ (o : OpenSession W).
            if o.broadcast_enabled then siblings session_ids pane_id (leaves_of_tab o) else [])
          (find (λ (o : OpenSession W). o.tab_id == tab_id) open_sessions)

-- The sessions of all panes.
abbrev pub sessions_of : Dict String → List PaneLeaf → List String
sessions_of session_ids [] = []
sessions_of session_ids (l ∷ ls) = live (session_ids l.pane_id) ++ sessions_of session_ids ls

abbrev pub ids_in : List PaneLeaf → List String
ids_in ls = map (λ (l : PaneLeaf). l.pane_id) ls

siblings-absent :
    (m : Dict String) (p : String) (ls : List PaneLeaf)
    → occurs p (ids_in ls) ≡ 0
    → siblings m p ls ≡ sessions_of m ls
unfolding siblings
siblings-absent m p [] h = refl
siblings-absent m p (l ∷ ls) h = elim (Bool-cases (l.pane_id == p)) [
  | inl same ↦ absurd (omega (arith, hit-true l.pane_id p same))
  | inr other ↦ rw (other, siblings-absent m p ls (omega arith))
]

swap_front : (a b c d : List String) → Perm (a ++ c) d → Perm (a ++ (b ++ c)) (b ++ d)
swap_front a b c d p =
    subst (λ l. Perm l (b ++ d)) (append_assoc a b c)
      (Perm.trans (Perm.append_right c (perm_append_comm a b))
        (subst (λ l. Perm l (b ++ d)) (sym (append_assoc b a c)) (Perm.append_left b p)))

siblings-perm :
    (m : Dict String) (p : String) (ls : List PaneLeaf)
    → occurs p (ids_in ls) ≡ 1
    → Perm (live (m p) ++ siblings m p ls) (sessions_of m ls)
unfolding siblings
siblings-perm m p [] h = absurd (omega arith)
siblings-perm m p (l ∷ ls) h = elim (Bool-cases (l.pane_id == p)) [
  | inl same ↦
      let e : l.pane_id ≡ p = (eq_iff l.pane_id p).0 same in
      rw (same, siblings-absent m p ls (omega (arith, hit-true l.pane_id p same)))
        (subst (λ q. Perm (live (m q) ++ sessions_of m ls) (live (m l.pane_id) ++ sessions_of m ls))
          e Perm.rfl)
  | inr other ↦ rw other (
      swap_front (live (m p)) (live (m l.pane_id)) _ _
        (siblings-perm m p ls (omega (arith, hit-false l.pane_id p other))))
]

module _ {W : Type 0} where
  pub write_targets-perm :
      (os : List (OpenSession W)) (m : Dict String) (tab_id p : String) (o : OpenSession W)
      → find (λ (o : OpenSession W). o.tab_id == tab_id) os ≡ some o
      → o.broadcast_enabled ≡ true
      → occurs p (ids_in (leaves_of_tab o)) ≡ 1
      → Perm (write_targets os m (m p) tab_id p) (sessions_of m (leaves_of_tab o))
  unfolding write_targets
  write_targets-perm os m tab_id p o found on once =
      rw (found, on) (siblings-perm m p (leaves_of_tab o) once)
