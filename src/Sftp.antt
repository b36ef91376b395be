-- ===== src/Sftp.antt =====
-- src/components/sftp/SftpBrowser.tsx: paths, the listing of one side (`refreshLocal`,
-- `refreshRemote`), and the connecting of the browser, cut at what it awaits. The backend's answers
-- are arguments, and what is shown of an error is `friendly` of it.
pub mod Orphans
use Prim.Native.Char.{Char, code}
use Prim.Native.String
use connect_hub.Base.{
  ℕ, suc, String, Bool, true, false, not, ◌&&◌, List, [], ◌∷◌, ◌++◌, Option, none, some, maybe,
  ◌==◌, if◌then◌else◌, eqb,
}
use connect_hub.Bridge.{Response, ok, failed}

-- `path.replace(/\/+$/, "")`
trim_slashes : String → String
trim_slashes String.[] = ""
trim_slashes (String.◌∷◌ c s) =
    let rest = trim_slashes s in if eqb (code c) 47 && rest == "" then "" else String.◌∷◌ c rest

-- `path.slice(0, path.lastIndexOf("/"))`, nothing where there is no slash.
before_last_slash : String → Option String
before_last_slash String.[] = none
before_last_slash (String.◌∷◌ c s) =
    maybe (if eqb (code c) 47 then some "" else none) (λ r. some (String.◌∷◌ c r))
      (before_last_slash s)

unfoldable pub parent_path : String → String
unfolding trim_slashes before_last_slash
parent_path path =
    maybe "/" (λ p. if p == "" then "/" else p) (before_last_slash (trim_slashes path))

unfoldable pub join_path : String → String → String
unfolding trim_slashes
join_path dir name = String.◌++◌ (trim_slashes dir) (String.◌++◌ "/" name)

-- One side's listing of entries `E`; `request` is its request reference.
pub record Listing (E : Type 0) : Type 0 where
  pub entries : List E
  pub loading : Bool
  pub error : Option String
  pub request : ℕ

unfoldable pub begin_refresh : {E : Type 0} → Listing E → Listing E × ℕ
begin_refresh s =
    let n = suc s.request in (record s { request = n; loading = true; error = none }, n)

unfoldable pub after_refresh : {E : Type 0} → Listing E → ℕ → Response (List E) → Listing E
after_refresh s n (ok entries) =
    if not (eqb n s.request) then s else record s { entries = entries; loading = false }
after_refresh s n (failed e) =
    if not (eqb n s.request) then s else record s { error = some e; loading = false }

pub data Status : Type 0 where
  connecting connected error : Status

-- What the effect has come to: both calls are awaited, only one of them, the remote home directory,
-- or nothing any more.
pub data Awaits : Type 0 where
  both : Awaits
  connecting_only : String → Awaits
  home_only : String → Awaits
  remote_home : Awaits
  nothing : Awaits

-- `connect_open` is whether `sftpConnect` has not answered. `ended` are the sessions told to
-- disconnect, the newest first.
pub record Browser : Type 0 where
  pub disposed : Bool
  pub connect_open : Bool
  pub connected_id : Option String
  pub sftp_id : Option String
  pub awaits : Awaits
  pub status : Status
  pub error : Option String
  pub ended : List String

abbrev pub mounted_browser : Browser
mounted_browser = record {
  disposed = false;
  connect_open = true;
  connected_id = none;
  sftp_id = none;
  awaits = both;
  status = connecting;
  error = none;
  ended = [];
}

abbrev end_session : Option String → List String → List String
end_session id ended = maybe ended (λ i. i ∷ ended) id

module _ (friendly : String → String) where
  -- The catch block.
  unfoldable pub caught : String → Browser → Browser
  caught e s =
      let s1 = record s {
        ended = end_session s.connected_id s.ended;
        sftp_id = maybe s.sftp_id (λ i. none) s.connected_id;
        awaits = nothing;
      } in
      if s.disposed then s1 else record s1 { status = error; error = some (friendly e) }

  -- Both calls have answered.
  unfoldable pub after_both : String → Browser → Browser
  after_both id s =
      if s.disposed
      then record s { ended = id ∷ s.ended; awaits = nothing }
      else record s { sftp_id = some id; awaits = remote_home }

  -- `sftpConnect` answers; where it does so after the other call failed, only its `then` runs.
  unfoldable pub after_sftp_connect : Response String → Browser → Browser
  unfolding caught after_both
  after_sftp_connect (ok id) s =
      go s.awaits (record s { connected_id = some id; connect_open = false })
    where
      go : Awaits → Browser → Browser
      go both t = record t { awaits = home_only id }
      go (connecting_only home) t = after_both id t
      go _ t = t
  after_sftp_connect (failed e) s = go s.awaits (record s { connect_open = false })
    where
      go : Awaits → Browser → Browser
      go both t = caught e t
      go (connecting_only home) t = caught e t
      go _ t = t

  -- `localHomeDir` answers.
  unfoldable pub after_home : Response String → Browser → Browser
  unfolding caught after_both
  after_home (ok home) s = go s.awaits
    where
      go : Awaits → Browser
      go both = record s { awaits = connecting_only home }
      go (home_only id) = after_both id s
      go _ = s
  after_home (failed e) s = go s.awaits
    where
      go : Awaits → Browser
      go both = caught e s
      go (home_only id) = caught e s
      go _ = s

  -- `sftpCanonicalize` answers.
  unfoldable pub after_canonicalize : Response String → Browser → Browser
  unfolding caught
  after_canonicalize (ok path) s =
      let s1 = record s { awaits = nothing } in
      if s.disposed then s1 else record s1 { status = connected }
  after_canonicalize (failed e) s = caught e s

  -- The clean-up of the effect.
  unfoldable pub unmount : Browser → Browser
  unmount s = record s { disposed = true; ended = end_session s.sftp_id s.ended }
