-- ===== src/Hosts.antt =====
-- src/state/hostsStore.ts: the groups, hosts, identities and keys, fetched anew after every change.
-- `load_request_id` is the module's variable `loadRequestId`. `loadAll` is cut at its await; the
-- backend's table of groups is a parameter.
pub mod Reordering
pub mod Mutations
pub mod Loads
use connect_hub.Base.{ℕ, suc, String, Bool, true, false, not, List, [], ◌∷◌, eqb, if◌then◌else◌}
use connect_hub.Bridge.{Group, GroupInput, Host, Identity, SshKey}

pub record HostsState : Type 0 where
  pub groups : List Group
  pub hosts : List Host
  pub identities : List Identity
  pub keys : List SshKey
  pub loaded : Bool
  pub load_request_id : ℕ

abbrev pub initial : HostsState
initial = record {
  groups = [];
  hosts = [];
  identities = [];
  keys = [];
  loaded = false;
  load_request_id = 0;
}

-- `++loadRequestId`, and the number of this request.
unfoldable pub begin_load : HostsState → HostsState × ℕ
begin_load s = (record s { load_request_id = suc s.load_request_id }, suc s.load_request_id)

-- The rest of `loadAll`.
unfoldable pub after_load :
    HostsState → ℕ → List Group → List Host → List Identity → List SshKey → HostsState
after_load s request_id groups hosts identities keys =
    if not (eqb request_id s.load_request_id) then s else record s {
      groups = groups;
      hosts = hosts;
      identities = identities;
      keys = keys;
      loaded = true;
    }

abbrev pub input_at : ℕ → Group → GroupInput
input_at sort_order g = record { parent_id = g.parent_id; name = g.name; sort_order = sort_order }

-- The loop of `reorderGroups` from an index on: the backend after it, and whether every call
-- succeeded; a call that throws ends the loop.
module _ {B : Type 0} (group_update : B → String → GroupInput → B × Bool) where
  unfoldable pub reorder_from : B → ℕ → List Group → B × Bool
  reorder_from b n [] = (b, true)
  reorder_from b n (g ∷ gs) =
      let called = group_update b g.id (input_at n g) in
      let rest = reorder_from called.0 (suc n) gs in if called.1 then rest else (called.0, false)

  unfoldable pub reorder_groups : B → List Group → B × Bool
  unfolding reorder_from
  reorder_groups b groups = reorder_from b 0 groups
