-- ===== src/Vpn/Gate.antt =====
-- `ensureVpnUp`: the gate before a host is reached, cut at its awaits. What the clock says is an
-- argument.
pub mod Ending
pub mod Opening
use Prim.Native.String
use connect_hub.Base.{
  ℕ, suc, ◌+◌, String, Bool, true, false, not, ◌&&◌, List, [], ◌∷◌, Option, none, some, ◌==◌, ltb,
  if◌then◌else◌, get_or_else, maybe, find, is_truthy,
}
use connect_hub.Bridge.{
  Host, VpnProfile, VpnState, connecting, connected, VpnStatus, Response, ok, failed,
}
use connect_hub.FriendlyError.{friendly_error}
use connect_hub.Assistant.Actions.{VpnGateResult}
use connect_hub.Vpn.{VpnStoreState, start_connect, after_connect}

abbrev pub vpn_gate_poll_timeout_ms : ℕ
vpn_gate_poll_timeout_ms = 25_000

abbrev pub vpn_gate_poll_interval_ms : ℕ
vpn_gate_poll_interval_ms = 400

-- What the gate does next: it is done, and may have asked for the host's route; it waits for
-- `vpnConnect`, with the deadline once it is known; it sleeps for an interval.
pub data Next : Type 0 where
  done : VpnGateResult → Bool → Next
  calls_connect : String → Option ℕ → Next
  sleeps : String → ℕ → Next

abbrev pub is_connected : VpnState → Bool
is_connected connected = true
is_connected _ = false

abbrev pub is_connecting : VpnState → Bool
is_connecting connecting = true
is_connecting _ = false

abbrev pub let_through : VpnGateResult
let_through = record { is_ok = true; message = none }

abbrev shut : String → VpnGateResult
shut message = record { is_ok = false; message = some message }

gate_profile : VpnStoreState → String → VpnStoreState × Next
gate_profile s profile_id =
    if maybe false (λ (status : VpnStatus). is_connected status.state) (s.statuses profile_id)
    then (s, done let_through true)
    else (start_connect s profile_id, calls_connect profile_id none)

-- Up to the first await.
unfoldable pub gate_start : VpnStoreState → Host → VpnStoreState × Next
unfolding gate_profile
gate_start s host =
    if is_truthy host.vpn_profile_id
    then maybe (s, done let_through false) (gate_profile s) host.vpn_profile_id
    else (s, done let_through false)

-- The message of a profile that did not come up.
abbrev why_shut : VpnStoreState → String → VpnStatus → String
why_shut s profile_id status =
    let label =
      maybe "" (λ (p : VpnProfile). p.label)
        (find (λ (p : VpnProfile). p.id == profile_id) s.profiles) in
    if is_connecting status.state
    then String.◌++◌ "VPN \""
        (String.◌++◌ label "\" is taking longer than expected to connect - try again in a moment.")
    else get_or_else status.message
        (String.◌++◌ "Could not connect VPN profile \"" (String.◌++◌ label "\"."))

gate_status : VpnStoreState → String → ℕ → ℕ → VpnStatus → Next
gate_status s profile_id deadline now status =
    if is_connecting status.state && ltb now deadline
    then sleeps profile_id deadline
    else if is_connected status.state
    then done let_through true
    else done (shut (why_shut s profile_id status)) false

-- `vpnConnect` has answered at the time `now`; the deadline is set at the first answer.
unfoldable pub gate_answered :
    VpnStoreState → String → Option ℕ → ℕ → Response VpnStatus → VpnStoreState × Next
unfolding gate_status
gate_answered s profile_id deadline now (failed e) =
    (after_connect s profile_id (failed e), done (shut (friendly_error e)) false)
gate_answered s profile_id deadline now (ok status) =
    let t = after_connect s profile_id (ok status) in
    (t, gate_status t profile_id (get_or_else deadline (now + vpn_gate_poll_timeout_ms)) now status)

-- The interval has passed.
unfoldable pub gate_slept : VpnStoreState → String → ℕ → VpnStoreState × Next
gate_slept s profile_id deadline =
    (start_connect s profile_id, calls_connect profile_id (some deadline))
