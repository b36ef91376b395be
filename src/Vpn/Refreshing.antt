-- ===== src/Vpn/Refreshing.antt =====
-- Requests to reload that overlap: any number of them, answered in any order, between the other
-- actions of the store.
pub mod Newest
pub mod Lost
use connect_hub.Base.{
  ℕ, suc, ◌≤◌, ◌<◌, ◌≡◌, refl, sym, ap, ◌∙◌, subst, String, Bool, true, false, not, List, [], ◌∷◌,
  ◌++◌, arith, eqb, if◌then◌else◌, All, All-append, All-append_left, All-append_right, Bool-cases,
  inl, inr,
}
use connect_hub.Bridge.{VpnProfile, VpnStatus, VpnConnectionStatus, Response, ok, failed}
use connect_hub.Vpn.{
  VpnStoreState, begin_request, after_load_all, after_refresh_active, after_run_setup,
  start_connect, after_connect, after_disconnect, after_disconnect_all,
}

-- A reload whose answer is awaited, by its number.
pub data Request : Type 0 where
  load refresh : ℕ → Request

abbrev pub number : Request → ℕ
number (load n) = n
number (refresh n) = n

pub record Client : Type 0 where
  pub store : VpnStoreState
  pub waiting : List Request

-- A step that begins no `loadAll`.
pub data Other (x : Client) : Client → Type 0 where
  refreshes : Other x (record {
    store = (begin_request x.store).0;
    waiting = refresh (begin_request x.store).1 ∷ x.waiting;
  })
  load_answered :
      (before behind : List Request) (n : ℕ)
      → x.waiting ≡ before ++ (load n ∷ behind)
      → (ps : List VpnProfile) (active : List VpnConnectionStatus) (installed : Bool)
      → Other x (record {
        store = after_load_all x.store n ps active installed;
        waiting = before ++ behind;
      })
  refresh_answered :
      (before behind : List Request) (n : ℕ)
      → x.waiting ≡ before ++ (refresh n ∷ behind)
      → (active : List VpnConnectionStatus)
      → Other x
          (record { store = after_refresh_active x.store n active; waiting = before ++ behind })
  set_up : (installed : Bool) → Other x (record x { store = after_run_setup x.store installed })
  connects : (p : String) → Other x (record x { store = start_connect x.store p })
  connect_answered :
      (p : String) (a : Response VpnStatus)
      → Other x (record x { store = after_connect x.store p a })
  disconnect_answered :
      (p : String) (a : Response (Unit {0}))
      → Other x (record x { store = after_disconnect x.store p a })
  all_answered :
      (a : Response (Unit {0})) → Other x (record x { store = after_disconnect_all x.store a })

pub data Step (x : Client) : Client → Type 0 where
  loads : Step x (record {
    store = (begin_request x.store).0;
    waiting = load (begin_request x.store).1 ∷ x.waiting;
  })
  goes : {y : Client} → Other x y → Step x y

pub data Steps (x : Client) : Client → Type 0 where
  here : Steps x x
  next : {y z : Client} → Steps x y → Step y z → Steps x z

-- Steps among which no `loadAll` begins.
pub data Others (x : Client) : Client → Type 0 where
  still : Others x x
  more : {y z : Client} → Others x y → Other y z → Others x z
