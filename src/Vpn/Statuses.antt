-- ===== src/Vpn/Statuses.antt =====
-- src/state/vpnStore.ts: what the map of statuses says.
use connect_hub.Base.{
  ◌≡◌, refl, ◌∙◌, String, List, [], ◌∷◌, Option, none, some, ◌==◌, arith, if◌then◌else◌, Dict,
  empty, insert, or_else, Bool-cases, inl, inr,
}
use connect_hub.Bridge.{VpnStatus, VpnConnectionStatus}
use connect_hub.Vpn.{status_map, status_map_from}

-- The status of a profile in the last entry of a list that is about it.
abbrev pub last_status : String → List VpnConnectionStatus → Option VpnStatus
last_status id [] = none
last_status id (c ∷ cs) =
    or_else (last_status id cs) (if c.profile_id == id then some c.status else none)

status_map_from_lem :
    (map : Dict VpnStatus) (list : List VpnConnectionStatus) (id : String)
    → status_map_from map list id ≡ or_else (last_status id list) (map id)
unfolding status_map_from
status_map_from_lem map [] id = refl
status_map_from_lem map (c ∷ cs) id =
    status_map_from_lem (insert c.profile_id c.status map) cs id
    ∙ elim (Bool-cases (c.profile_id == id)) [
      | inl same ↦ ground (arith, same)
      | inr other ↦ ground (arith, other)
    ]

-- The map built from a list of connections has, for each profile, the status of the last entry
-- about it, and nothing where there is none.
pub status_map_lem :
    (list : List VpnConnectionStatus) (id : String) → status_map list id ≡ last_status id list
unfolding status_map
status_map_lem list id = status_map_from_lem empty list id ∙ ground arith
