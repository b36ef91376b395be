-- ===== src/Tests/Terminals.antt =====
-- src/components/terminal/TerminalView.tsx: a terminal whose connecting fails, one that closes while
-- it connects, and a password that is typed.
use connect_hub.Base.{◌+◌, ◌-◌, ◌≤◌, ◌≡◌, refl, String, true, List, [], ◌∷◌, ◌++◌, codes}
use connect_hub.Terminal.Connection.{
  Terminal, begun, after, dispose, after_connect, fails, Steps, here, next, opens, Troubles, calm,
  more, started,
}
use connect_hub.Terminal.Connection.Retries.{max_retries, retries_end}
use connect_hub.Terminal.Connection.Unmounting.{current, unmounted-ended}
use connect_hub.Terminal.Typing.{nothing_typed, on_output, on_data}
use connect_hub.Terminal.Typing.Lines.{secret_unrecorded}
use connect_hub.Bridge.{ok, failed}

abbrev same : String → String
same e = e

abbrev turned_down : Terminal
turned_down =
    after (record begun { awaited = 0 })
      (after_connect same true (failed "refused") begun.connection)

turned_down-Troubles : Troubles same begun turned_down
unfolding started
turned_down-Troubles = more calm (fails true "refused" 0 refl)

retries_end_example :
    (turned_down.connection.next_timer
      ≤ begun.connection.next_timer + (max_retries - begun.connection.reconnect_attempts))
    × (turned_down.connection.reconnect_attempts ≤ max_retries)
retries_end_example = retries_end same here turned_down-Troubles

abbrev left_early : Terminal
left_early = after begun (dispose begun.connection)

abbrev told_late : Terminal
told_late =
    after (record left_early { awaited = 0; opened = "s" ∷ left_early.opened })
      (after_connect same true (ok "s") left_early.connection)

told_late-Steps : Steps same left_early told_late
unfolding started dispose
told_late-Steps = next here (opens true "s" 0 refl)

unmounted-ended_example :
    (ids : List String) × (told_late.opened ≡ ids ++ begun.opened)
    × (told_late.ended ≡ ids ++ (current begun.connection ++ begun.ended))
    × (told_late.awaited ≤ begun.awaited)
unmounted-ended_example = unmounted-ended same begun told_late-Steps

asks_password : (on_output nothing_typed (codes "Password: ")).suppress_next_line ≡ true
unfolding on_output
asks_password = refl

secret_unrecorded_example :
    (on_data (on_output nothing_typed (codes "Password: ")) (codes "hunter2" ++ (13 ∷ []))).1 ≡ []
secret_unrecorded_example =
    secret_unrecorded nothing_typed (codes "Password: ") (codes "hunter2") asks_password (
      (refl, refl),
      (
        (refl, refl),
        ((refl, refl), ((refl, refl), ((refl, refl), ((refl, refl), ((refl, refl), tt))))),
      ),
    )
