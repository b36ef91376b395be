-- ===== src/Vpn/Refreshing/Newest.antt =====
-- The newest reload wins, whatever it was for.
use connect_hub.Base.{ℕ, ◌≤◌, ◌<◌, ◌≡◌, Bool, List, arith}
use connect_hub.Bridge.{VpnProfile, VpnConnectionStatus, ok, failed}
use connect_hub.Vpn.{
  VpnStoreState, begin_request, after_load_all, after_refresh_active, after_run_setup,
  start_connect, after_connect, after_disconnect, after_disconnect_all,
}
use connect_hub.Vpn.Refreshing.{
  Client, Other, refreshes, load_answered, refresh_answered, set_up, connects, connect_answered,
  disconnect_answered, all_answered, Step, loads, goes, Steps, here, next,
}

pub id-after_load_all :
    (s : VpnStoreState) (n : ℕ) (ps : List VpnProfile) (active : List VpnConnectionStatus)
    (i : Bool)
    → (after_load_all s n ps active i).request_id ≡ s.request_id
unfolding after_load_all
id-after_load_all s n ps active i = ground arith

pub id-after_refresh_active :
    (s : VpnStoreState) (n : ℕ) (active : List VpnConnectionStatus)
    → (after_refresh_active s n active).request_id ≡ s.request_id
unfolding after_refresh_active
id-after_refresh_active s n active = ground arith

-- An answer to a reload that is not the newest is discarded.
pub load_discarded :
    (s : VpnStoreState) (n : ℕ) (ps : List VpnProfile) (active : List VpnConnectionStatus)
    (i : Bool)
    → n < s.request_id
    → after_load_all s n ps active i ≡ s
unfolding after_load_all
load_discarded s n ps active i h = ground arith

refresh_discarded :
    (s : VpnStoreState) (n : ℕ) (active : List VpnConnectionStatus)
    → n < s.request_id
    → after_refresh_active s n active ≡ s
unfolding after_refresh_active
refresh_discarded s n active h = ground arith

pub id-Other : {x y : Client} → Other x y → x.store.request_id ≤ y.store.request_id
unfolding begin_request after_run_setup start_connect after_connect after_disconnect
    after_disconnect_all
id-Other {x} refreshes = omega arith
id-Other {x} (load_answered before behind n e ps active i) =
    omega (arith, id-after_load_all x.store n ps active i)
id-Other {x} (refresh_answered before behind n e active) =
    omega (arith, id-after_refresh_active x.store n active)
id-Other {x} (set_up i) = omega arith
id-Other {x} (connects p) = omega arith
id-Other {x} (connect_answered p (ok a)) = omega arith
id-Other {x} (connect_answered p (failed e)) = omega arith
id-Other {x} (disconnect_answered p (ok a)) = omega arith
id-Other {x} (disconnect_answered p (failed e)) = omega arith
id-Other {x} (all_answered (ok a)) = omega arith
id-Other {x} (all_answered (failed e)) = omega arith

id-Step : {x y : Client} → Step x y → x.store.request_id ≤ y.store.request_id
unfolding begin_request
id-Step {x} loads = omega arith
id-Step (goes st) = id-Other st

id-Steps : {x y : Client} → Steps x y → x.store.request_id ≤ y.store.request_id
id-Steps {x} here = omega arith
id-Steps (next r st) = omega (arith, id-Steps r, id-Step st)

-- Once a newer reload than number `n` has begun, an answer to number `n` changes nothing,
-- whether it was a `loadAll` or a `refreshActive`, in every state reached from there.
pub superseded_discarded :
    {x y : Client} (n : ℕ)
    → n < x.store.request_id
    → Steps x y
    → (ps : List VpnProfile) (active : List VpnConnectionStatus) (i : Bool)
    → (after_load_all y.store n ps active i ≡ y.store)
      × (after_refresh_active y.store n active ≡ y.store)
superseded_discarded {x} {y} n h r ps active i =
    let later : n < y.store.request_id = omega (arith, id-Steps r) in
    (load_discarded y.store n ps active i later, refresh_discarded y.store n active later)
