-- ===== src/Vpn/Gate/Ending.antt =====
-- src/state/vpnStore.ts: how long the gate polls.
use connect_hub.Base.{
  ℕ, ◌+◌, ◌*◌, ◌≤◌, ◌<◌, String, ◌&&◌, List, [], ◌∷◌, Option, none, some, length, ltb, arith,
  get_or_else, Bool, false, Bool-cases, inl, inr, maybe, is_truthy,
}
use connect_hub.Assistant.Actions.{VpnGateResult}
use connect_hub.Bridge.{Host, VpnStatus, Response, ok, failed}
use connect_hub.Vpn.{VpnStoreState, after_connect}
use connect_hub.Vpn.Gate.{
  Next, done, calls_connect, sleeps, gate_answered, gate_status, gate_slept, gate_start,
  gate_profile, let_through, is_connecting, is_connected, vpn_gate_poll_interval_ms,
  vpn_gate_poll_timeout_ms,
}

-- An answer of `vpnConnect`, with the time and the store that it meets, and the store that the gate
-- meets where it sleeps after that and wakes up.
pub record Poll : Type 0 where
  pub store : VpnStoreState
  pub now : ℕ
  pub answer : Response VpnStatus
  pub woken : VpnStoreState

-- A sleep passes.
wake : VpnStoreState → Next → Next
wake s (sleeps p deadline) = (gate_slept s p deadline).1
wake s (calls_connect p d) = calls_connect p d
wake s (done r route) = done r route

-- The gate from what it does next on, as the answers of its calls of `vpnConnect` come. Whatever else
-- changes the store meanwhile, it does so in the stores that the gate meets.
pub run_gate : Next → List Poll → Next
unfolding wake
run_gate next [] = next
run_gate (done r route) (q ∷ qs) = done r route
run_gate (sleeps p deadline) (q ∷ qs) = sleeps p deadline
run_gate (calls_connect p d) (q ∷ qs) =
    run_gate (wake q.woken (gate_answered q.store p d q.now q.answer).1) qs

abbrev pub IsDone : Next → Type 0
IsDone (done r route) = Unit {0}
IsDone _ = ⊥

-- Each answer comes an interval or more after the one before it.
abbrev pub Paced : ℕ → List Poll → Type 0
Paced t [] = Unit {0}
Paced t (q ∷ qs) = (t + vpn_gate_poll_interval_ms ≤ q.now) × Paced q.now qs

done_stays :
    (r : VpnGateResult) (route : Bool) (qs : List Poll) → IsDone (run_gate (done r route) qs)
unfolding run_gate
done_stays r route [] = tt
done_stays r route (q ∷ qs) = tt

-- Before the deadline the gate calls again with that deadline; else it is done.
status_ends :
    (s w : VpnStoreState) (p : String) (deadline now : ℕ) (status : VpnStatus) (qs : List Poll)
    → (now < deadline → IsDone (run_gate (calls_connect p (some deadline)) qs))
    → IsDone (run_gate (wake w (gate_status s p deadline now status)) qs)
unfolding wake gate_status gate_slept
status_ends s w p deadline now status qs h =
    elim (Bool-cases (is_connecting status.state && ltb now deadline)) [
      | inl waits ↦ rw waits (h (ground (arith, waits)))
      | inr ends ↦ elim (Bool-cases (is_connected status.state)) [
        | inl up ↦ rw (ends, up) (done_stays _ _ qs)
        | inr down ↦ rw (ends, down) (done_stays _ _ qs)
      ]
    ]

answer_ends :
    (p : String) (d : Option ℕ) (q : Poll) (qs : List Poll)
    → (q.now < get_or_else d (q.now + vpn_gate_poll_timeout_ms)
        → IsDone (
            run_gate
              (calls_connect p (some (get_or_else d (q.now + vpn_gate_poll_timeout_ms))))
              qs))
    → IsDone (run_gate (calls_connect p d) (q ∷ qs))
unfolding run_gate gate_answered wake
answer_ends p d q qs h = by_answer q.answer
  where
    by_answer :
        (a : Response VpnStatus)
        → IsDone (run_gate (wake q.woken (gate_answered q.store p d q.now a).1) qs)
    by_answer (failed e) = done_stays _ _ qs
    by_answer (ok status) =
        status_ends (after_connect q.store p (ok status)) q.woken p
          (get_or_else d (q.now + vpn_gate_poll_timeout_ms)) q.now status qs h

polls_end :
    (p : String) (t deadline : ℕ) (qs : List Poll)
    → Paced t qs
    → t < deadline
    → deadline ≤ t + vpn_gate_poll_interval_ms * length qs
    → IsDone (run_gate (calls_connect p (some deadline)) qs)
polls_end p t deadline [] paced before enough = absurd (omega arith)
polls_end p t deadline (q ∷ qs) (step, paced) before enough =
    answer_ends p (some deadline) q qs
      (λ soon. polls_end p q.now deadline qs paced soon (omega arith))

-- Let the gate be entered for a host in any store, and let the first answer of `vpnConnect` be
-- followed by 63 or more, each at least an interval of 400 ms after the one before it. However
-- the store changes meanwhile and whatever is answered, the gate has ended with a result by the
-- last of them.
pub gate_ends :
    (s : VpnStoreState) (host : Host) (q : Poll) (qs : List Poll)
    → Paced q.now qs
    → 63 ≤ length qs
    → IsDone (run_gate (gate_start s host).1 (q ∷ qs))
unfolding gate_start gate_profile
gate_ends s host q qs paced enough = elim (Bool-cases (is_truthy host.vpn_profile_id)) [
  | inr none_set ↦ rw none_set (done_stays _ _ (q ∷ qs))
  | inl set ↦ rw set (by_profile host.vpn_profile_id)
]
  where
    called : (p : String) → IsDone (run_gate (calls_connect p none) (q ∷ qs))
    called p =
        answer_ends p none q qs
          (λ soon. polls_end p q.now (q.now + vpn_gate_poll_timeout_ms) qs paced soon (omega arith))

    by_profile :
        (o : Option String)
        → IsDone (run_gate (maybe (s, done let_through false) (gate_profile s) o).1 (q ∷ qs))
    by_profile none = done_stays _ _ (q ∷ qs)
    by_profile (some p) =
        elim (Bool-cases
          (maybe false (λ (status : VpnStatus). is_connected status.state) (s.statuses p))) [
            | inl up ↦ rw up (done_stays _ _ (q ∷ qs))
            | inr down ↦ rw down (called p)
          ]
