-- ===== src/Tests/Gates.antt =====
-- src/state/vpnStore.ts: a VPN that goes on connecting, and one that comes up.
use connect_hub.Base.{
  ℕ, zero, suc, ◌+◌, ◌≤◌, ◌≡◌, refl, true, List, [], ◌∷◌, none, some, length, arith,
}
use connect_hub.Bridge.{Host, connecting, connected, ok}
use connect_hub.Vpn.{initial}
use connect_hub.Vpn.Gate.{gate_start, gate_answered}
use connect_hub.Vpn.Gate.Ending.{Poll, run_gate, IsDone, Paced, gate_ends}
use connect_hub.Tests.{web}
use connect_hub.Vpn.Gate.Opening.{is_up_in, lets_through, is_ok_done, gate_answered-up}

abbrev poll_at : ℕ → Poll
poll_at now = record {
  store = initial;
  now = now;
  answer = ok (record { state = connecting; message = none });
  woken = initial;
}

-- So many polls, half a second apart.
abbrev polls : ℕ → ℕ → List Poll
polls now zero = []
polls now (suc n) = poll_at (now + 500) ∷ polls (now + 500) n

polls-Paced : (now n : ℕ) → Paced now (polls now n)
polls-Paced now zero = tt
polls-Paced now (suc n) = (omega arith, polls-Paced (now + 500) n)

length-polls : (now n : ℕ) → length (polls now n) ≡ n
length-polls now zero = refl
length-polls now (suc n) = omega (arith, length-polls (now + 500) n)

enough_polls : 63 ≤ length (polls 0 63)
enough_polls = omega (arith, length-polls 0 63)

abbrev inside : Host
inside = record web { vpn_profile_id = some "office" }

gate_ends_example : IsDone (run_gate (gate_start initial inside).1 (poll_at 0 ∷ polls 0 63))
gate_ends_example =
    gate_ends initial inside (poll_at 0) (polls 0 63) (polls-Paced 0 63) enough_polls

let_in :
    is_ok_done
      (gate_answered initial "office" none 0 (ok (record { state = connected; message = none }))).1
    ≡ true
unfolding gate_answered
let_in = refl

gate_answered-up_example :
    let r =
      gate_answered initial "office" none 0 (ok (record { state = connected; message = none })) in
    (is_up_in r.0 "office" ≡ true) × (lets_through r.1 ≡ true)
gate_answered-up_example =
    gate_answered-up initial "office" none 0 (ok (record { state = connected; message = none }))
      let_in
