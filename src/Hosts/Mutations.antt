-- ===== src/Hosts/Mutations.antt =====
-- src/state/hostsStore.ts: the changes that the store makes through the backend, each of which is
-- followed by a load. The backend `B` and its calls (src/lib/tauri-bridge/hosts.ts, groups.ts,
-- identities.ts, keys.ts) are a parameter.
use connect_hub.Base.{ℕ, String, Bool, Option, none, some, is_truthy, if◌then◌else◌}
use connect_hub.Bridge.{
  Group, GroupInput, Host, HostInput, ImportSummary, Identity, IdentityInput, SshKey,
  GenerateKeyInput, ImportKeyInput, Response, ok, failed,
}
use connect_hub.Hosts.{HostsState, begin_load}

pub data Mutation : Type 0 where
  create_group : GroupInput → Mutation
  update_group : String → GroupInput → Mutation
  delete_group : String → Mutation
  create_host : HostInput → Mutation
  update_host : String → HostInput → Mutation
  delete_host : String → Mutation
  toggle_host_favorite : String → Bool → Mutation
  import_hosts_csv : String → Mutation
  create_identity : IdentityInput → Mutation
  update_identity : String → IdentityInput → Mutation
  delete_identity : String → Mutation
  generate_key : GenerateKeyInput → Mutation
  import_key : ImportKeyInput → Mutation
  delete_key : String → Mutation

-- What a change's promise resolves to.
pub data Made : Type 0 where
  group : Group → Made
  host : Host → Made
  summary : ImportSummary → Made
  identity : Identity → Made
  key : SshKey → Made
  nothing : Made

pub record Calls (B : Type 0) : Type 0 where
  pub group_create : B → GroupInput → B × Response Group
  pub group_update : B → String → GroupInput → B × Response Group
  pub group_delete : B → String → B × Response (Unit {0})
  pub host_create : B → HostInput → B × Response Host
  pub host_update : B → String → HostInput → B × Response Host
  pub host_delete : B → String → B × Response (Unit {0})
  pub host_set_favorite : B → String → Bool → B × Response Host
  pub host_import_csv : B → String → B × Response ImportSummary
  pub identity_create : B → IdentityInput → B × Response Identity
  pub identity_update : B → String → IdentityInput → B × Response Identity
  pub identity_delete : B → String → B × Response (Unit {0})
  pub key_generate : B → GenerateKeyInput → B × Response SshKey
  pub key_import : B → ImportKeyInput → B × Response SshKey
  pub key_delete : B → String → B × Response (Unit {0})

abbrev made : {B A : Type 0} → (A → Made) → B × Response A → B × Response Made
made f (b, ok a) = (b, ok (f a))
made f (b, failed e) = (b, failed e)

-- The call that a change makes, up to its await.
unfoldable pub call : {B : Type 0} → Calls B → B → Mutation → B × Response Made
call c b (create_group input) = made group (c.group_create b input)
call c b (update_group id input) = made group (c.group_update b id input)
call c b (delete_group id) = made (λ u. nothing) (c.group_delete b id)
call c b (create_host input) = made host (c.host_create b input)
call c b (update_host id input) = made host (c.host_update b id input)
call c b (delete_host id) = made (λ u. nothing) (c.host_delete b id)
call c b (toggle_host_favorite id favorite) = made host (c.host_set_favorite b id favorite)
call c b (import_hosts_csv content) = made summary (c.host_import_csv b content)
call c b (create_identity input) = made identity (c.identity_create b input)
call c b (update_identity id input) = made identity (c.identity_update b id input)
call c b (delete_identity id) = made (λ u. nothing) (c.identity_delete b id)
call c b (generate_key input) = made key (c.key_generate b input)
call c b (import_key input) = made key (c.key_import b input)
call c b (delete_key id) = made (λ u. nothing) (c.key_delete b id)

-- What follows the call: a load and its number, unless the call threw.
unfoldable pub after_call : HostsState → Response Made → HostsState × Option ℕ
after_call s (failed e) = (s, none)
after_call s (ok m) = let (s', number) = begin_load s in (s', some number)

-- The host whose route through its VPN is asked for at the end of `updateHost`.
unfoldable pub route_asked : Mutation → Made → Option String
route_asked (update_host id input) (host h) = if is_truthy h.vpn_profile_id then some h.id else none
route_asked m made = none
