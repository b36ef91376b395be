-- ===== src/Terminal/Connection.antt =====
-- The variables of the connect effect, and the functions that it declares. Each returns the new
-- state and the calls that it makes. A timer is a number; those pending are in `timers`, and
-- `reconnect_timeout` is the last that was set. Whether retries are wanted is read from the
-- settings store: the argument `auto_reconnect`.
pub mod Retries
pub mod Unmounting
use connect_hub.Base.{
  ℕ, suc, ◌+◌, ◌≡◌, String, Bool, true, false, not, ◌&&◌, List, [], ◌∷◌, ◌++◌, Option, none, some,
  if◌then◌else◌, ltb, eqb, any, filter, length, get_elem?, maybe,
}
use connect_hub.Bridge.{Response, ok, failed}
use connect_hub.Sessions.{SessionStatus, connecting, connected, closed, error, reconnecting}

abbrev pub reconnect_backoff_ms : List ℕ
reconnect_backoff_ms = 2000 ∷ 4000 ∷ 8000 ∷ 16000 ∷ 30000 ∷ []

pub record Connection : Type 0 where
  pub disposed : Bool
  pub reconnect_attempts : ℕ
  pub session_id : Option String
  pub status : SessionStatus
  pub error : Option String
  pub timers : List ℕ
  pub reconnect_timeout : Option ℕ
  pub next_timer : ℕ

-- Before `connectSession` is first called.
abbrev pub mounted : Connection
mounted = record {
  disposed = false;
  reconnect_attempts = 0;
  session_id = none;
  status = connecting;
  error = none;
  timers = [];
  reconnect_timeout = none;
  next_timer = 0;
}

pub data Call : Type 0 where
  session_connect : Call
  session_disconnect session_resize set_session_id : String → Call
  load_hosts fetch_history : Call

-- What the backend reports of a session that was connected.
pub data SessionEvent : Type 0 where
  closed_event : SessionEvent
  error_event : String → SessionEvent

-- `clearTimeout(reconnectTimeout)`
unfoldable pub clear_timeout : Connection → Connection
clear_timeout s = record s {
  timers = maybe s.timers (λ t. filter (λ u. not (eqb t u)) s.timers) s.reconnect_timeout;
}

-- `setTimeout` of the next retry; its delay is the entry of the schedule for this attempt.
unfoldable pub schedule : Connection → Connection
schedule s = record s {
  reconnect_attempts = suc s.reconnect_attempts;
  status = reconnecting;
  timers = s.next_timer ∷ s.timers;
  reconnect_timeout = some s.next_timer;
  next_timer = suc s.next_timer;
}

abbrev pub is_error : SessionStatus → Bool
is_error error = true
is_error _ = false

unfoldable pub handle_disconnect : Bool → SessionStatus → Connection → Connection
unfolding schedule
handle_disconnect auto_reconnect settled s =
    let ended = record s { session_id = none } in
    if s.disposed
    then s
    else if is_error settled
        && (auto_reconnect && ltb s.reconnect_attempts (length reconnect_backoff_ms))
    then schedule ended
    else record ended { status = settled }

unfoldable pub connect_session : Connection → Connection × List Call
unfolding clear_timeout
connect_session s = if s.disposed then (s, []) else (
  record (clear_timeout s) {
    error = none;
    status = if ltb 0 s.reconnect_attempts then reconnecting else connecting;
  },
  session_connect ∷ [],
)

unfoldable pub on_event : Bool → SessionEvent → Connection → Connection
on_event auto_reconnect closed_event s = handle_disconnect auto_reconnect closed s
on_event auto_reconnect (error_event message) s =
    if s.disposed
    then s
    else handle_disconnect auto_reconnect error (record s { error = some message })

-- The rest of `sessionConnect`. What is shown of an error is `friendly` of it.
unfoldable pub after_connect :
    (String → String) → Bool → Response String → Connection → Connection × List Call
after_connect friendly auto_reconnect (ok id) s =
    if s.disposed then (s, session_disconnect id ∷ []) else (
      record s { session_id = some id; reconnect_attempts = 0; status = connected },
      session_resize id ∷ load_hosts ∷ set_session_id id ∷ fetch_history ∷ [],
    )
after_connect friendly auto_reconnect (failed e) s =
    (handle_disconnect auto_reconnect error (record s { error = some (friendly e) }), [])

-- The "Reconnect" button.
unfoldable pub reconnect : Connection → Connection × List Call
unfolding connect_session
reconnect s = connect_session (record s { reconnect_attempts = 0 })

-- The clean-up of the effect.
unfoldable pub dispose : Connection → Connection × List Call
unfolding clear_timeout
dispose s = (
  record (clear_timeout s) { disposed = true },
  maybe [] (λ id. session_disconnect id ∷ []) s.session_id,
)

unfoldable pub started : Connection × List Call
unfolding connect_session
started = connect_session mounted

-- The terminal and the backend: connects whose answer is awaited, the sessions that were opened,
-- and those that were told to disconnect, the newest first.
pub record Terminal : Type 0 where
  pub connection : Connection
  pub awaited : ℕ
  pub opened : List String
  pub ended : List String

abbrev pub connects : List Call → ℕ
connects [] = 0
connects (session_connect ∷ cs) = suc (connects cs)
connects (_ ∷ cs) = connects cs

abbrev pub disconnects : List Call → List String
disconnects [] = []
disconnects (session_disconnect id ∷ cs) = id ∷ disconnects cs
disconnects (_ ∷ cs) = disconnects cs

abbrev pub after : Terminal → Connection × List Call → Terminal
after x r = record x {
  connection = r.0;
  awaited = x.awaited + connects r.1;
  ended = disconnects r.1 ++ x.ended;
}

-- The effect has run.
abbrev pub begun : Terminal
begun = after (record { connection = mounted; awaited = 0; opened = []; ended = [] }) started

-- A step that neither connects nor is the user's: an event of any session, a connect that fails, a
-- timer that fires.
pub data Trouble (friendly : String → String) (x : Terminal) : Terminal → Type 0 where
  reports :
      (auto_reconnect : Bool) (e : SessionEvent)
      → Trouble friendly x (record x { connection = on_event auto_reconnect e x.connection })
  fails :
      (auto_reconnect : Bool) (e : String) (n : ℕ)
      → x.awaited ≡ suc n
      → Trouble friendly x (
          after
            (record x { awaited = n })
            (after_connect friendly auto_reconnect (failed e) x.connection))
  fires :
      (t : ℕ)
      → any (eqb t) x.connection.timers ≡ true
      → Trouble friendly x (
          after x (
            connect_session
              (record x.connection { timers = filter (λ u. not (eqb t u)) x.connection.timers })))

pub data Step (friendly : String → String) (x : Terminal) : Terminal → Type 0 where
  troubles : {y : Terminal} → Trouble friendly x y → Step friendly x y
  opens :
      (auto_reconnect : Bool) (id : String) (n : ℕ)
      → x.awaited ≡ suc n
      → Step friendly x (
          after
            (record x { awaited = n; opened = id ∷ x.opened })
            (after_connect friendly auto_reconnect (ok id) x.connection))
  clicks : Step friendly x (after x (reconnect x.connection))
  unmounts : x.connection.disposed ≡ false → Step friendly x (after x (dispose x.connection))

pub data Steps (friendly : String → String) (x : Terminal) : Terminal → Type 0 where
  here : Steps friendly x x
  next : {y z : Terminal} → Steps friendly x y → Step friendly y z → Steps friendly x z

pub data Troubles (friendly : String → String) (x : Terminal) : Terminal → Type 0 where
  calm : Troubles friendly x x
  more : {y z : Terminal} → Troubles friendly x y → Trouble friendly y z → Troubles friendly x z
