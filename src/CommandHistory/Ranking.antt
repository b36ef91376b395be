-- ===== src/CommandHistory/Ranking.antt =====
-- src/state/commandHistoryStore.ts: the commands of a server's own history file, and how often each
-- was run (`parseRemoteHistory`, `rankRemoteHistory`).
pub mod Order
pub mod Last
pub mod Counts
use Prim.Native.Char.{Char, code}
use connect_hub.Base.{
  ℕ, suc, ◌+◌, String, Bool, true, false, not, ◌&&◌, ◌||◌, List, [], ◌∷◌, map, Option, none, some,
  maybe, ◌==◌, if◌then◌else◌, eqb, leb, ltb, take, sort_by,
}
use connect_hub.Terminal.Typing.{is_space}
use connect_hub.CommandHistory.{RemoteHistoryRank}

with_char : Char → List String → List String
with_char c [] = []
with_char c (line ∷ lines) = String.◌∷◌ c line ∷ lines

-- `raw.split("\n")`
split_lines : String → List String
unfolding with_char
split_lines String.[] = "" ∷ []
split_lines (String.◌∷◌ c s) =
    let rest = split_lines s in if eqb (code c) 10 then "" ∷ rest else with_char c rest

trim_start : String → String
trim_start String.[] = ""
trim_start (String.◌∷◌ c s) = if is_space (code c) then trim_start s else String.◌∷◌ c s

trim_end : String → String
trim_end String.[] = ""
trim_end (String.◌∷◌ c s) =
    let rest = trim_end s in if is_space (code c) && rest == "" then "" else String.◌∷◌ c rest

trim_text : String → String
unfolding trim_start trim_end
trim_text s = trim_start (trim_end s)

is_digit : Char → Bool
is_digit c = leb 48 (code c) && leb (code c) 57

all_digits : String → Bool
unfolding is_digit
all_digits String.[] = true
all_digits (String.◌∷◌ c s) = is_digit c && all_digits s

-- `/^#\d+$/`
is_timestamp : String → Bool
unfolding all_digits
is_timestamp String.[] = false
is_timestamp (String.◌∷◌ c s) = eqb (code c) 35 && (not (s == "") && all_digits s)

-- `(.*)$`: a text without line ends.
one_line : String → Bool
one_line String.[] = true
one_line (String.◌∷◌ c s) =
    not (eqb (code c) 10 || (eqb (code c) 13 || (eqb (code c) 8232 || eqb (code c) 8233)))
    && one_line s

-- `\d+` and then one character, and what comes after: whether a digit was read already is told.
after_digits : ℕ → Bool → String → Option String
unfolding is_digit
after_digits stop read String.[] = none
after_digits stop read (String.◌∷◌ c s) =
    let more = after_digits stop true s in
    if is_digit c then more else if read && eqb (code c) stop then some s else none

-- `/^:\s*\d+:\d+;(.*)$/`, and what its group has matched.
zsh_command : String → Option String
unfolding trim_start after_digits one_line
zsh_command String.[] = none
zsh_command (String.◌∷◌ c s) =
    if eqb (code c) 58
    then maybe none
        (λ t.
          maybe none (λ body. if one_line body then some body else none) (after_digits 59 false t))
        (after_digits 58 false (trim_start s))
    else none

keep_commands : List String → List String
unfolding trim_text is_timestamp zsh_command
keep_commands [] = []
keep_commands (raw ∷ lines) =
    let line = trim_text raw in
    let rest = keep_commands lines in
    if line == "" || is_timestamp line then rest else maybe line trim_text (zsh_command line) ∷ rest

unfoldable pub parse_remote_history : String → List String
unfolding split_lines keep_commands
parse_remote_history raw = keep_commands (split_lines raw)

-- A command's entry in `counts`, with its entry in `lastIndex`.
pub record Tally : Type 0 where
  pub command : String
  pub count : ℕ
  pub last_index : ℕ

unfoldable pub count_command : String → ℕ → List Tally → List Tally
count_command command index [] = record { command = command; count = 1; last_index = index } ∷ []
count_command command index (t ∷ ts) =
    if t.command == command
    then record t { count = t.count + 1; last_index = index } ∷ ts
    else t ∷ count_command command index ts

unfoldable pub count_from : List Tally → ℕ → List String → List Tally
unfolding count_command
count_from ts index [] = ts
count_from ts index (command ∷ commands) =
    count_from (count_command command index ts) (suc index) commands

-- The comparison of the sort is not positive.
unfoldable pub ranks_before : Tally → Tally → Bool
ranks_before a b = ltb b.count a.count || (eqb a.count b.count && leb b.last_index a.last_index)

abbrev pub rank_of : Tally → RemoteHistoryRank
rank_of t = record { command = t.command; count = t.count }

unfoldable pub rank_remote_history : List String → ℕ → List RemoteHistoryRank
unfolding count_from
rank_remote_history commands limit =
    take limit (map rank_of (sort_by ranks_before (count_from [] 0 commands)))
