-- ===== src/Terminal/Connection/Unmounting.antt =====
-- src/components/terminal/TerminalView.tsx: what happens once the terminal is gone.
use connect_hub.Base.{
  ◌≤◌, ◌≡◌, refl, sym, ap, ◌∙◌, String, true, List, [], ◌∷◌, ◌++◌, append_assoc, arith, Option,
  none, some, maybe,
}
use connect_hub.Terminal.Connection.{
  Connection, closed_event, error_event, handle_disconnect, connect_session, on_event,
  after_connect, reconnect, dispose, session_disconnect, disconnects, connects, Terminal, after,
  Trouble, reports, fails, fires, Step, troubles, opens, clicks, unmounts, Steps, here, next,
}

-- From `x` to `y` the same sessions, and no others, were opened and told to disconnect, and no
-- connect was begun; the terminal is gone.
pub record Closes (x y : Terminal) : Type 0 where
  pub gone : y.connection.disposed ≡ true
  pub ids : List String
  pub opened : y.opened ≡ ids ++ x.opened
  pub ended : y.ended ≡ ids ++ x.ended
  pub awaited : y.awaited ≤ x.awaited

Trouble-Closes :
    (friendly : String → String) {x y : Terminal}
    → Trouble friendly x y
    → x.connection.disposed ≡ true
    → Closes x y
unfolding on_event handle_disconnect after_connect connect_session
Trouble-Closes friendly {x} (reports auto_reconnect closed_event) g = record {
  gone = ground (arith, g);
  ids = [];
  opened = refl;
  ended = refl;
  awaited = omega arith;
}
Trouble-Closes friendly {x} (reports auto_reconnect (error_event m)) g = record {
  gone = ground (arith, g);
  ids = [];
  opened = refl;
  ended = refl;
  awaited = omega arith;
}
Trouble-Closes friendly {x} (fails auto_reconnect e n a) g = record {
  gone = ground (arith, g);
  ids = [];
  opened = refl;
  ended = refl;
  awaited = omega arith;
}
Trouble-Closes friendly {x} (fires t pending) g = record {
  gone = ground (arith, g);
  ids = [];
  opened = refl;
  ended = rw g;
  awaited = rw g (omega arith);
}

Step-Closes :
    (friendly : String → String) {x y : Terminal}
    → Step friendly x y
    → x.connection.disposed ≡ true
    → Closes x y
unfolding after_connect reconnect connect_session
Step-Closes friendly (troubles st) g = Trouble-Closes friendly st g
Step-Closes friendly {x} (opens auto_reconnect id n a) g = record {
  gone = ground (arith, g);
  ids = id ∷ [];
  opened = refl;
  ended = rw g;
  awaited = rw g (omega arith);
}
Step-Closes friendly {x} clicks g = record {
  gone = ground (arith, g);
  ids = [];
  opened = refl;
  ended = rw g;
  awaited = rw g (omega arith);
}
Step-Closes friendly {x} (unmounts there) g = ground (arith, g, there)

Steps-Closes :
    (friendly : String → String) {x y : Terminal}
    → Steps friendly x y
    → x.connection.disposed ≡ true
    → Closes x y
Steps-Closes friendly here g = record {
  gone = g;
  ids = [];
  opened = refl;
  ended = refl;
  awaited = omega arith;
}
Steps-Closes friendly {x} (next r st) g =
    let p = Steps-Closes friendly r g in
    let q = Step-Closes friendly st p.gone in
    record {
      gone = q.gone;
      ids = q.ids ++ p.ids;
      opened = q.opened ∙ ap (λ l. q.ids ++ l) p.opened ∙ sym (append_assoc q.ids p.ids x.opened);
      ended = q.ended ∙ ap (λ l. q.ids ++ l) p.ended ∙ sym (append_assoc q.ids p.ids x.ended);
      awaited = omega (arith, p.awaited, q.awaited);
    }

-- The session that the terminal has, if any.
abbrev pub current : Connection → List String
current s = maybe [] (λ id. id ∷ []) s.session_id

told :
    (o : Option String)
    → disconnects (maybe [] (λ id. session_disconnect id ∷ []) o) ≡ maybe [] (λ id. id ∷ []) o
told none = refl
told (some id) = refl

none_begun : (o : Option String) → connects (maybe [] (λ id. session_disconnect id ∷ []) o) ≡ 0
none_begun none = refl
none_begun (some id) = refl

-- Once a terminal is unmounted, whatever happens in any order: no session is connected any
-- more, and the sessions told to disconnect from then on are the one that it had, if any, and
-- each of those that open later, once each.
pub unmounted-ended :
    (friendly : String → String) (x : Terminal) {y : Terminal}
    → Steps friendly (after x (dispose x.connection)) y
    → (ids : List String) × (y.opened ≡ ids ++ x.opened)
      × (y.ended ≡ ids ++ (current x.connection ++ x.ended))
      × (y.awaited ≤ x.awaited)
unfolding dispose
unmounted-ended friendly x r =
    let c = Steps-Closes friendly r refl in
    let o = x.connection.session_id in
    (
      c.ids,
      c.opened,
      c.ended ∙ ap (λ l. c.ids ++ (l ++ x.ended)) (told o),
      omega (arith, c.awaited, none_begun o),
    )
