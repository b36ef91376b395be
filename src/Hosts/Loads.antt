-- ===== src/Hosts/Loads.antt =====
-- src/state/hostsStore.ts: what the store shows after any changes, with overlapping loads.
use connect_hub.Base.{◌≡◌, refl, List, [], arith}
use connect_hub.Bridge.{Group, Host, Identity, SshKey}
use connect_hub.Hosts.{HostsState, begin_load, after_load}
use connect_hub.Reloading.{Loading, IsGuarded}
use connect_hub.Reloading.Settled.{World, Reached, settled_shows}

-- The backend's four lists.
abbrev pub Records : Type 0
Records = List Group × List Host × List Identity × List SshKey

abbrev pub hosts_loading : Loading HostsState Records
hosts_loading = record {
  shown = λ s. (s.groups, s.hosts, s.identities, s.keys);
  newest = λ s. s.load_request_id;
  begin = begin_load;
  finish = λ s n (groups, hosts, identities, keys). after_load s n groups hosts identities keys;
}

hosts_loading-IsGuarded : IsGuarded hosts_loading
unfolding begin_load after_load
hosts_loading-IsGuarded = record {
  begin_newest = λ s. refl;
  begin_number = λ s. refl;
  finish_newest = λ s n d. ground arith;
  finish_taken = λ s d. ground arith;
  finish_dropped = λ s n d other. ground (arith, other);
}

-- From any store on whose first load is owed, let the backend's records change, loads begin and
-- every load answer, in any order and overlapping, a load having begun after each change; a
-- load brings the records as they are if none changed since it began, and anything otherwise.
-- Once none is owed and none is awaited, the groups, hosts, identities and keys shown are the
-- backend's.
pub hosts_settle :
    {w : World HostsState Records}
    → Reached hosts_loading w
    → w.owed ≡ 0
    → w.loads ≡ []
    → hosts_loading.shown w.store ≡ w.records
hosts_settle r none_owed none_awaited =
    settled_shows hosts_loading hosts_loading-IsGuarded r none_owed none_awaited
