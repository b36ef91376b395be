-- ===== src/Tests/Vpns.antt =====
-- src/state/vpnStore.ts: a list of connections, and a reload that another overtakes.
use connect_hub.Base.{◌≡◌, refl, true, none, List, [], ◌∷◌, arith, ◌<◌}
use connect_hub.Bridge.{
  VpnState, connecting, connected, disconnected, VpnStatus, VpnConnectionStatus,
}
use connect_hub.Vpn.{initial, status_map, begin_request, after_load_all, after_refresh_active}
use connect_hub.Vpn.Statuses.{last_status, status_map_lem}
use connect_hub.Vpn.Refreshing.{
  load, refresh, Client, loads, here, next, Others, still, more, load_answered,
}
use connect_hub.Vpn.Refreshing.Newest.{superseded_discarded}
use connect_hub.Vpn.Refreshing.Lost.{Numbered, overtaken_load_lost}

abbrev status_of : VpnState → VpnStatus
status_of state = record { state = state; message = none }

abbrev listed : List VpnConnectionStatus
listed =
    record { profile_id = "office"; status = status_of connecting }
    ∷ record { profile_id = "home"; status = status_of disconnected }
    ∷ record { profile_id = "office"; status = status_of connected }
    ∷ []

status_map_lem_example : status_map listed "office" ≡ last_status "office" listed
status_map_lem_example = status_map_lem listed "office"

abbrev begun : Client
begun = record { store = initial; waiting = [] }

abbrev loading : Client
loading = record {
  store = (begin_request initial).0;
  waiting = load (begin_request initial).1 ∷ [];
}

abbrev overtaking : Client
overtaking = record {
  store = (begin_request loading.store).0;
  waiting = refresh (begin_request loading.store).1 ∷ loading.waiting;
}

first_older : 1 < overtaking.store.request_id
unfolding begin_request
first_older = omega arith

abbrev answered : Client
answered = record {
  store = after_load_all overtaking.store (begin_request initial).1 [] listed true;
  waiting = refresh (begin_request loading.store).1 ∷ [];
}

overtaking-answered : Others overtaking answered
overtaking-answered = more still (
    load_answered (refresh (begin_request loading.store).1 ∷ []) [] (begin_request initial).1 refl
      [] listed true)

superseded_discarded_example :
    (after_load_all overtaking.store 1 [] listed true ≡ overtaking.store)
    × (after_refresh_active overtaking.store 1 listed ≡ overtaking.store)
superseded_discarded_example =
    superseded_discarded {x = overtaking} 1 first_older here [] listed true

begun-Numbered : Numbered begun
begun-Numbered = tt

overtaken_load_lost_example : answered.store.profiles ≡ loading.store.profiles
overtaken_load_lost_example =
    overtaken_load_lost begun-Numbered (next here loads) overtaking-answered
