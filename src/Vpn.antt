-- ===== src/Vpn.antt =====
-- src/state/vpnStore.ts: the VPN profiles and their statuses. `request_id` is the module's variable
-- `requestId`. An action is cut at its awaits: what comes back from the backend is an argument of
-- the rest.
pub mod Mutations
pub mod Statuses
pub mod Refreshing
pub mod Gate
use connect_hub.Base.{
  ℕ, suc, String, Bool, true, false, not, ◌||◌, List, [], ◌∷◌, Option, none, some, ◌==◌, eqb,
  if◌then◌else◌, maybe, find, any, Dict, empty, insert,
}
use connect_hub.Bridge.{
  Host, VpnProfile, VpnState, connecting, connected, disconnecting, VpnStatus, VpnConnectionStatus,
  Response, ok, failed,
}
use connect_hub.Sessions.{OpenSession}

pub record VpnStoreState : Type 0 where
  pub profiles : List VpnProfile
  pub statuses : Dict VpnStatus
  pub setup_installed : Bool
  pub loaded : Bool
  pub request_id : ℕ

abbrev pub initial : VpnStoreState
initial = record {
  profiles = [];
  statuses = empty;
  setup_installed = false;
  loaded = false;
  request_id = 0;
}

-- The loop of `statusMap` over the rest of the list.
status_map_from : Dict VpnStatus → List VpnConnectionStatus → Dict VpnStatus
status_map_from map [] = map
status_map_from map (c ∷ list) = status_map_from (insert c.profile_id c.status map) list

unfoldable pub status_map : List VpnConnectionStatus → Dict VpnStatus
unfolding status_map_from
status_map list = status_map_from empty list

-- `++requestId`, and the number of this request.
unfoldable pub begin_request : VpnStoreState → VpnStoreState × ℕ
begin_request s = (record s { request_id = suc s.request_id }, suc s.request_id)

-- The rest of `loadAll`.
unfoldable pub after_load_all :
    VpnStoreState → ℕ → List VpnProfile → List VpnConnectionStatus → Bool → VpnStoreState
unfolding status_map
after_load_all s this_request profiles active setup_installed =
    if not (eqb this_request s.request_id) then s else record s {
      profiles = profiles;
      statuses = status_map active;
      setup_installed = setup_installed;
      loaded = true;
    }

-- The rest of `refreshActive`.
unfoldable pub after_refresh_active : VpnStoreState → ℕ → List VpnConnectionStatus → VpnStoreState
unfolding status_map
after_refresh_active s this_request active =
    if not (eqb this_request s.request_id) then s else record s { statuses = status_map active }

-- The rest of `runSetup`.
unfoldable pub after_run_setup : VpnStoreState → Bool → VpnStoreState
after_run_setup s setup_installed = record s { setup_installed = setup_installed }

-- `connect` up to its await, and its rest; where the call throws, the rest is not run.
unfoldable pub start_connect : VpnStoreState → String → VpnStoreState
start_connect s profile_id = record s {
  statuses = insert profile_id (record { state = connecting; message = none }) s.statuses;
}

unfoldable pub after_connect : VpnStoreState → String → Response VpnStatus → VpnStoreState
after_connect s profile_id (failed e) = s
after_connect s profile_id (ok status) = record s { statuses = insert profile_id status s.statuses }

-- The rest of `disconnect`.
unfoldable pub after_disconnect : VpnStoreState → String → Response (Unit {0}) → VpnStoreState
after_disconnect s profile_id (failed e) = s
after_disconnect s profile_id (ok done) = record s {
  statuses = insert profile_id (record { state = disconnecting; message = none }) s.statuses;
}

abbrev pub is_up : VpnState → Bool
is_up connected = true
is_up connecting = true
is_up _ = false

abbrev shut_down : VpnStatus → VpnStatus
shut_down status =
    if is_up status.state then record { state = disconnecting; message = none } else status

-- The rest of `disconnectAll`.
unfoldable pub after_disconnect_all : VpnStoreState → Response (Unit {0}) → VpnStoreState
after_disconnect_all s (failed e) = s
after_disconnect_all s (ok done) = record s {
  statuses = λ id. maybe none (λ status. some (shut_down status)) (s.statuses id);
}

module _ {W : Type 0} where
  -- Whether a tab's own host uses the profile.
  abbrev pub uses_profile : String → OpenSession W → Bool
  uses_profile profile_id o = maybe false (λ id. id == profile_id) o.host.vpn_profile_id

  -- `releaseIfUnused` up to its await: the profile to disconnect, if any.
  release_profile : VpnStoreState → List (OpenSession W) → Option String → Option String
  release_profile s open_sessions none = none
  release_profile s open_sessions (some profile_id) =
      let up = maybe false (λ (status : VpnStatus). is_up status.state) (s.statuses profile_id) in
      if (profile_id == "") || (not up || any (uses_profile profile_id) open_sessions)
      then none
      else some profile_id

  unfoldable pub release_if_unused :
      VpnStoreState → List Host → List (OpenSession W) → String → Option String
  unfolding release_profile
  release_if_unused s hosts open_sessions host_id =
      release_profile s open_sessions
        (maybe none (λ (h : Host). h.vpn_profile_id) (find (λ (h : Host). h.id == host_id) hosts))
