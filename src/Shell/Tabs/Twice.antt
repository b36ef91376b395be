-- ===== src/Shell/Tabs/Twice.antt =====
-- src/pages/AppShell.tsx: how many terminal tabs of one host `handleConnect` leaves open.
use connect_hub.Base.{
  ℕ, ◌+◌, ◌∙◌, ap, ◌≤◌, ◌≡◌, refl, String, Bool, true, ◌&&◌, List, [], ◌∷◌, ◌++◌, none, find, ◌==◌,
  arith, Bool-cases, inl, inr, Option-cases, if◌then◌else◌, eq_iff, hit, hit-false, hit_le,
  hit_self, subst, max,
}
use connect_hub.Number.{Number}
use connect_hub.Bridge.{Host}
use connect_hub.Assistant.Actions.{VpnGateResult}
use connect_hub.Sessions.{SessionKind, OpenSession, SessionsState, is_terminal, open_session}
use connect_hub.Shell.{Shell}
use connect_hub.Shell.Tabs.{
  begin_gate, end_gate, show_gate, gate_result, show_tab, terminal_of, handle_connect, open_tab,
  after_gate, connect,
}

module _ {W : Type 0} where
  abbrev pub is_terminal_of : String → OpenSession W → Bool
  is_terminal_of host_id o = (o.host.id == host_id) && is_terminal o.kind

  -- The terminal tabs whose own host is the one called so.
  unfoldable pub terminals : String → List (OpenSession W) → ℕ
  terminals host_id [] = 0
  terminals host_id (o ∷ os) = (if is_terminal_of host_id o then 1 else 0) + terminals host_id os

  pub terminals-append :
      (i : String) (os : List (OpenSession W)) (o : OpenSession W)
      → terminals i (os ++ (o ∷ [])) ≡ terminals i os + (if is_terminal_of i o then 1 else 0)
  unfolding terminals
  terminals-append i [] o = omega arith
  terminals-append i (x ∷ os) o = omega (arith, terminals-append i os o)

  pub find-terminals :
      (i : String) (os : List (OpenSession W))
      → find (is_terminal_of i) os ≡ none
      → terminals i os ≡ 0
  unfolding terminals
  find-terminals i [] e = refl
  find-terminals i (o ∷ os) e = ground (arith, find-terminals i os)

  pub sessions-begin_gate : (s : Shell W) (host : Host) → (begin_gate s host).sessions ≡ s.sessions
  unfolding begin_gate
  sessions-begin_gate s host = ground arith

  pub sessions-end_gate :
      (s : Shell W) (host : Host) (r : VpnGateResult) → (end_gate s host r).0.sessions ≡ s.sessions
  unfolding end_gate show_gate
  sessions-end_gate s host r = ground arith

module _ {W : Type 0} ⦃num : Number W⦄ (uuid : ℕ → String) where
  terminals-open_tab :
      (s : Shell W) (host : Host) (i : String)
      → terminals i (open_tab uuid s host SessionKind.terminal).sessions.open_sessions
        ≡ terminals i s.sessions.open_sessions + hit host.id i
  unfolding open_tab open_session show_tab hit
  terminals-open_tab s host i = elim (Bool-cases (host.id == i)) [
    | inl same ↦ rw same (terminals-append i s.sessions.open_sessions _ ∙ rw same refl)
    | inr other ↦ rw other (terminals-append i s.sessions.open_sessions _ ∙ rw other refl)
  ]

  terminals-after_gate :
      (s : Shell W) (host : Host) (r : VpnGateResult) (i : String)
      → let n = terminals i s.sessions.open_sessions in
        let m =
          terminals i (after_gate uuid s host SessionKind.terminal r).sessions.open_sessions in
        (n ≤ m) × (m ≤ n + hit host.id i)
  unfolding after_gate
  terminals-after_gate s host r i =
      let same =
        ap (λ (t : SessionsState W). terminals i t.open_sessions) (sessions-end_gate s host r) in
      elim (Bool-cases (end_gate s host r).1.is_ok) [
        | inl up ↦
            let opened = terminals-open_tab (end_gate s host r).0 host i in
            rw up (omega (arith, same, opened), omega (arith, same, opened))
        | inr down ↦ rw down (omega (arith, same), omega (arith, same))
      ]

  -- One whole call of `handleConnect`, nothing happening while it awaits the gate, leaves at
  -- most one terminal tab of any host open, or as many as there were.
  pub terminals-connect :
      (s : Shell W) (host : Host) (r : VpnGateResult) (i : String)
      → terminals i (connect uuid s host r).sessions.open_sessions
        ≤ max 1 (terminals i s.sessions.open_sessions)
  unfolding connect handle_connect show_tab terminal_of
  terminals-connect s host r i = elim (Option-cases (terminal_of s.sessions.open_sessions host)) [
    | inr (o, e) ↦ rw e (omega arith)
    | inl e ↦
        let t = begin_gate s host in
        let same =
          ap (λ (t : SessionsState W). terminals i t.open_sessions) (sessions-begin_gate s host) in
        rw e (elim (Bool-cases (host.id == i)) [
          | inl this ↦
              let none_of_it =
                subst (λ j. terminals j s.sessions.open_sessions ≡ 0) ((eq_iff host.id i).0 this)
                  (find-terminals host.id s.sessions.open_sessions e) in
              omega (arith, same, terminals-after_gate t host r i, none_of_it, hit_le host.id i)
          | inr other ↦
              omega (arith, same, terminals-after_gate t host r i, hit-false host.id i other)
        ])
  ]

  pub answer-end_gate :
      (s : Shell W) (host : Host) (r : VpnGateResult)
      → r.is_ok ≡ true
      → (end_gate s host r).1.is_ok ≡ true
  unfolding end_gate gate_result
  answer-end_gate s host r up = ground arith

  terminals-let_through :
      (s : Shell W) (host : Host) (r : VpnGateResult)
      → r.is_ok ≡ true
      → terminals host.id (after_gate uuid s host SessionKind.terminal r).sessions.open_sessions
        ≡ terminals host.id s.sessions.open_sessions + 1
  unfolding after_gate
  terminals-let_through s host r up =
      let same =
        ap (λ (t : SessionsState W). terminals host.id t.open_sessions)
          (sessions-end_gate s host r) in
      let opened = terminals-open_tab (end_gate s host r).0 host host.id in
      rw (answer-end_gate s host r up) (omega (arith, same, opened, hit_self host.id))

  pub sessions-asked :
      (s : Shell W) (host : Host)
      → terminal_of s.sessions.open_sessions host ≡ none
      → (handle_connect s host).0.sessions ≡ s.sessions
  unfolding handle_connect
  sessions-asked s host free = rw free (sessions-begin_gate s host)

  -- Two calls of `handleConnect` for one host without a terminal tab, the second made before
  -- the gate has answered the first, leave two terminal tabs of the host open once both gates
  -- let through.
  pub connect_twice :
      (s : Shell W) (host : Host) (r q : VpnGateResult)
      → terminal_of s.sessions.open_sessions host ≡ none
      → r.is_ok ≡ true
      → q.is_ok ≡ true
      → let asked = (handle_connect (handle_connect s host).0 host).0 in
        let first = after_gate uuid asked host SessionKind.terminal r in
        let second = after_gate uuid first host SessionKind.terminal q in
        terminals host.id second.sessions.open_sessions ≡ 2
  unfolding terminal_of
  connect_twice s host r q free up up' =
      let once = sessions-asked s host free in
      let still_free = ap (λ (t : SessionsState W). terminal_of t.open_sessions host) once ∙ free in
      let twice =
        ap (λ (t : SessionsState W). terminals host.id t.open_sessions)
          (sessions-asked (handle_connect s host).0 host still_free ∙ once) in
      omega (
        arith,
        twice,
        find-terminals host.id s.sessions.open_sessions free,
        terminals-let_through (handle_connect (handle_connect s host).0 host).0 host r up,
        terminals-let_through _ host q up',
      )
