-- ===== src/Vpn/Gate/Opening.antt =====
-- src/state/vpnStore.ts: when the gate lets a host through.
use connect_hub.Base.{
  ℕ, ◌+◌, ◌≡◌, refl, String, Bool, true, false, ◌&&◌, Option, ltb, arith, eq_iff, maybe,
  get_or_else, Bool-cases, inl, inr,
}
use connect_hub.Bridge.{VpnStatus, Response, ok, failed}
use connect_hub.Vpn.{VpnStoreState, after_connect}
use connect_hub.Vpn.Gate.{
  Next, done, gate_answered, gate_status, is_connecting, is_connected, vpn_gate_poll_timeout_ms,
}

-- Whether a profile's status is connected.
abbrev pub is_up_in : VpnStoreState → String → Bool
is_up_in s p = maybe false (λ (status : VpnStatus). is_connected status.state) (s.statuses p)

-- The gate is through, and asks for the host's route.
abbrev pub lets_through : Next → Bool
lets_through (done r route) = r.is_ok && route
lets_through _ = false

abbrev pub is_ok_done : Next → Bool
is_ok_done (done r route) = r.is_ok
is_ok_done _ = false

through :
    (s : VpnStoreState) (p : String) (deadline now : ℕ) (status : VpnStatus)
    → is_ok_done (gate_status s p deadline now status) ≡ true
    → (is_connected status.state ≡ true)
      × (lets_through (gate_status s p deadline now status) ≡ true)
unfolding gate_status
through s p deadline now status e =
    elim (Bool-cases (is_connecting status.state && ltb now deadline)) [
      | inl waits ↦ absurd (ground (arith, rw waits at e))
      | inr ends ↦ elim (Bool-cases (is_connected status.state)) [
        | inl up ↦ rw (ends, up) (refl, refl)
        | inr down ↦ absurd (ground (arith, rw (ends, down) at e))
      ]
    ]

-- Where an answer of `vpnConnect` makes the gate let a host through, the profile's status in
-- the store is then connected, and the host's route is asked for.
pub gate_answered-up :
    (s : VpnStoreState) (p : String) (d : Option ℕ) (now : ℕ) (a : Response VpnStatus)
    → is_ok_done (gate_answered s p d now a).1 ≡ true
    → (is_up_in (gate_answered s p d now a).0 p ≡ true)
      × (lets_through (gate_answered s p d now a).1 ≡ true)
unfolding gate_answered after_connect
gate_answered-up s p d now (failed e) h = ground (arith, h)
gate_answered-up s p d now (ok status) h =
    let (up, route) =
      through (after_connect s p (ok status)) p (get_or_else d (now + vpn_gate_poll_timeout_ms)) now
        status h in
    (rw ((eq_iff p p).1 refl) up, route)
