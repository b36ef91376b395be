-- ===== src/Tests/Histories.antt =====
-- src/state/commandHistoryStore.ts: two commands run on a host.
use connect_hub.Terminal.Typing.{is_space}
use connect_hub.CommandHistory.Ranking.{
  Tally, parse_remote_history, rank_remote_history, count_from, count_command, ranks_before,
  rank_of,
}
use connect_hub.CommandHistory.Ranking.Order.{IsRanked}
use connect_hub.CommandHistory.Ranking.Counts.{Tallies, rank_remote_history_lem}
use connect_hub.Base.{
  refl, map, sort_by, insert_by, ◌≡◌, ◌≤◌, String, none, some, List, [], ◌∷◌, arith, empty, length,
  take,
}
use connect_hub.Uuid.{counting}
use connect_hub.CommandHistory.{CommandHistoryState, Run, max_entries_per_host, history}
use connect_hub.CommandHistory.Newest.{record_runs, entries_onto, history-record_runs}

abbrev fresh : CommandHistoryState
fresh = record { by_host = empty; remote_top_used = empty; drawn = 0 }

abbrev ran : String → Run
ran label = record { label = label; body = label; exit_status = some 0; error = none }

abbrev runs : List (String × Run)
runs = ("09:00", ran "uptime") ∷ ("09:01", ran "df") ∷ []

few : length (history fresh "web") ≤ max_entries_per_host
few = omega arith

history-record_runs_example :
    history (record_runs counting fresh "web" runs) "web"
    ≡ take max_entries_per_host (entries_onto counting fresh.drawn runs (history fresh "web"))
history-record_runs_example = history-record_runs counting fresh "web" runs few

parsed :
    parse_remote_history ": 1700000000:0;ls -la\n#1700000000\n  git status \n\nls -la\n"
    ≡ "ls -la" ∷ "git status" ∷ "ls -la" ∷ []
unfolding parse_remote_history is_space
parsed = refl

ranked :
    rank_remote_history ("ls" ∷ "git status" ∷ "ls" ∷ "pwd" ∷ []) 2
    ≡ record { command = "ls"; count = 2 } ∷ record { command = "pwd"; count = 1 } ∷ []
unfolding rank_remote_history count_from count_command ranks_before sort_by insert_by
ranked = refl

rank_remote_history_lem_example :
    (ranked : List Tally) × Tallies ("ls" ∷ "pwd" ∷ "ls" ∷ []) ranked
    × IsRanked ranked
    × (rank_remote_history ("ls" ∷ "pwd" ∷ "ls" ∷ []) 10 ≡ take 10 (map rank_of ranked))
rank_remote_history_lem_example = rank_remote_history_lem ("ls" ∷ "pwd" ∷ "ls" ∷ []) 10
