-- ===== src/CommandHistory.antt =====
-- src/state/commandHistoryStore.ts: the commands run on each host, the newest first. `drawn` is the
-- number of identifiers drawn so far from the platform's supply; the time that `record` reads is an
-- argument.
pub mod Newest
pub mod Ranking
use connect_hub.Base.{
  ℕ, suc, String, Bool, List, [], ◌∷◌, Option, none, some, get_or_else, take, Dict, insert, ◌==◌,
  if◌then◌else◌,
}

pub record CommandHistoryEntry : Type 0 where
  pub id : String
  pub label : String
  pub body : String
  pub ran_at : String
  pub exit_status : Option ℕ
  pub error : Option String

-- An entry before it has an identifier and a time.
pub record Run : Type 0 where
  pub label : String
  pub body : String
  pub exit_status : Option ℕ
  pub error : Option String

pub record RemoteHistoryRank : Type 0 where
  pub command : String
  pub count : ℕ

pub record CommandHistoryState : Type 0 where
  pub by_host : Dict (List CommandHistoryEntry)
  pub remote_top_used : Dict (List RemoteHistoryRank)
  pub drawn : ℕ

abbrev pub max_entries_per_host : ℕ
max_entries_per_host = 100

abbrev pub entry_of : String → String → Run → CommandHistoryEntry
entry_of id ran_at r = record {
  id = id;
  label = r.label;
  body = r.body;
  ran_at = ran_at;
  exit_status = r.exit_status;
  error = r.error;
}

abbrev pub history : CommandHistoryState → String → List CommandHistoryEntry
history s host_id = get_or_else (s.by_host host_id) []

unfoldable pub record_run :
    (ℕ → String) → CommandHistoryState → String → String → Run → CommandHistoryState
record_run uuid s host_id now r = record s {
  by_host =
      insert host_id (take max_entries_per_host (entry_of (uuid s.drawn) now r ∷ history s host_id))
        s.by_host;
  drawn = suc s.drawn;
}

unfoldable pub set_remote_top_used :
    CommandHistoryState → String → List RemoteHistoryRank → CommandHistoryState
set_remote_top_used s host_id ranked = record s {
  remote_top_used = insert host_id ranked s.remote_top_used;
}
