-- ===== src/Terminal/Connection/Retries.antt =====
-- src/components/terminal/TerminalView.tsx: how often a lost connection is retried.
use connect_hub.Base.{
  some, ℕ, ◌+◌, ◌-◌, ◌≤◌, ◌<◌, any, eqb, ◌≡◌, String, Bool, true, false, arith, length,
}
use connect_hub.Sessions.{SessionStatus, closed, error}
use connect_hub.Terminal.Connection.{
  Connection, SessionEvent, closed_event, error_event, reconnect_backoff_ms, clear_timeout,
  schedule, handle_disconnect, connect_session, on_event, after_connect, reconnect, dispose,
  Terminal, started, begun, Trouble, reports, fails, fires, Step, troubles, opens, clicks, unmounts,
  Steps, here, next, Troubles, calm, more,
}

-- The retries that the schedule allows.
abbrev pub max_retries : ℕ
max_retries = length reconnect_backoff_ms

-- Each timer that is set uses up one retry, and there are no more than the schedule has.
pub record Spends (s t : Connection) : Type 0 where
  pub spent : t.next_timer + s.reconnect_attempts ≡ s.next_timer + t.reconnect_attempts
  pub within : s.reconnect_attempts ≤ max_retries → t.reconnect_attempts ≤ max_retries

Spends-handle_disconnect :
    (auto_reconnect : Bool) (settled : SessionStatus) (s : Connection)
    → Spends s (handle_disconnect auto_reconnect settled s)
unfolding handle_disconnect schedule
Spends-handle_disconnect auto_reconnect settled s = record {
  spent = ground arith;
  within = λ h. ground arith;
}

Spends-on_event :
    (auto_reconnect : Bool) (e : SessionEvent) (s : Connection)
    → Spends s (on_event auto_reconnect e s)
unfolding on_event handle_disconnect schedule
Spends-on_event auto_reconnect closed_event s = Spends-handle_disconnect auto_reconnect closed s
Spends-on_event auto_reconnect (error_event m) s = record {
  spent = ground arith;
  within = λ h. ground arith;
}

Spends-connect_session : (s : Connection) → Spends s (connect_session s).0
unfolding connect_session clear_timeout
Spends-connect_session s = record { spent = ground arith; within = λ h. ground arith }

Spends-Trouble :
    (friendly : String → String) {x y : Terminal}
    → Trouble friendly x y
    → Spends x.connection y.connection
unfolding after_connect
Spends-Trouble friendly {x} (reports auto_reconnect e) =
    Spends-on_event auto_reconnect e x.connection
Spends-Trouble friendly {x} (fails auto_reconnect e n some_awaited) =
    let p =
      Spends-handle_disconnect auto_reconnect error
        (record x.connection { error = some (friendly e) }) in
    record { spent = p.spent; within = p.within }
Spends-Trouble friendly {x} (fires t pending) =
    let p = Spends-connect_session _ in record { spent = p.spent; within = p.within }

Spends-Troubles :
    (friendly : String → String) {x y : Terminal}
    → Troubles friendly x y
    → Spends x.connection y.connection
Spends-Troubles friendly calm = record { spent = omega arith; within = λ h. h }
Spends-Troubles friendly (more r st) =
    let p = Spends-Troubles friendly r in
    let q = Spends-Trouble friendly st in
    record { spent = omega (arith, p.spent, q.spent); within = λ h. q.within (p.within h) }

attempts_le-Step :
    (friendly : String → String) {x y : Terminal}
    → Step friendly x y
    → x.connection.reconnect_attempts ≤ max_retries
    → y.connection.reconnect_attempts ≤ max_retries
unfolding after_connect reconnect connect_session clear_timeout dispose
attempts_le-Step friendly (troubles st) h = (Spends-Trouble friendly st).within h
attempts_le-Step friendly {x} (opens auto_reconnect id n e) h = ground arith
attempts_le-Step friendly {x} clicks h = ground arith
attempts_le-Step friendly {x} (unmounts there) h = h

attempts_le-Steps :
    (friendly : String → String) {x y : Terminal}
    → Steps friendly x y
    → x.connection.reconnect_attempts ≤ max_retries
    → y.connection.reconnect_attempts ≤ max_retries
attempts_le-Steps friendly here h = h
attempts_le-Steps friendly (next r st) h =
    attempts_le-Step friendly st (attempts_le-Steps friendly r h)

-- In every state reached from a terminal's mounting, whatever events, failing connects and
-- firing timers follow without a connect that succeeds and without a click on Reconnect: no
-- more retries are scheduled than are left of five, and the attempts counted stay at five at
-- most.
pub retries_end :
    (friendly : String → String) {x y : Terminal}
    → Steps friendly begun x
    → Troubles friendly x y
    → (y.connection.next_timer
        ≤ x.connection.next_timer + (max_retries - x.connection.reconnect_attempts))
      × (y.connection.reconnect_attempts ≤ max_retries)
unfolding started
retries_end friendly r later =
    let few = attempts_le-Steps friendly r (omega arith) in
    let p = Spends-Troubles friendly later in (omega (arith, p.spent, p.within few), p.within few)

pub closed_hides_retry :
    (s : Connection) (message : String)
    → s.disposed ≡ false
    → s.reconnect_attempts < max_retries
    → let t = on_event true closed_event (on_event true (error_event message) s) in
      (t.status ≡ closed) × (any (eqb s.next_timer) t.timers ≡ true)
unfolding on_event handle_disconnect schedule
closed_hides_retry s message mounted few = (ground arith, ground arith)
