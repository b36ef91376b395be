-- ===== src/Vpn/Mutations.antt =====
-- src/state/vpnStore.ts: the changes of VPN profiles, each followed by a numbered load. The backend
-- `B` and its calls (src/lib/tauri-bridge/vpn.ts) are a parameter.
use connect_hub.Base.{ℕ, String, Option, none, some}
use connect_hub.Bridge.{VpnProfile, VpnProfileInput, Response, ok, failed}
use connect_hub.Vpn.{VpnStoreState, begin_request}

data Mutation : Type 0 where
  create_profile : VpnProfileInput → Mutation
  update_profile : String → VpnProfileInput → Mutation
  delete_profile : String → Mutation

record Calls (B : Type 0) : Type 0 where
  pub vpn_profile_create : B → VpnProfileInput → B × Response VpnProfile
  pub vpn_profile_update : B → String → VpnProfileInput → B × Response VpnProfile
  pub vpn_profile_delete : B → String → B × Response (Unit {0})

abbrev made :
    {B A : Type 0} → (A → Option VpnProfile) → B × Response A → B × Response (Option VpnProfile)
made f (b, ok a) = (b, ok (f a))
made f (b, failed e) = (b, failed e)

-- The call that a change makes, up to its await.
call : {B : Type 0} → Calls B → B → Mutation → B × Response (Option VpnProfile)
call c b (create_profile input) = made some (c.vpn_profile_create b input)
call c b (update_profile id input) = made some (c.vpn_profile_update b id input)
call c b (delete_profile id) = made (λ u. none) (c.vpn_profile_delete b id)

-- What follows the call: a load and its number, unless the call threw.
after_call : VpnStoreState → Response (Option VpnProfile) → VpnStoreState × Option ℕ
unfolding begin_request
after_call s (failed e) = (s, none)
after_call s (ok m) = let (s', number) = begin_request s in (s', some number)
