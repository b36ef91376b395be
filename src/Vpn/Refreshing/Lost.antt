-- ===== src/Vpn/Refreshing/Lost.antt =====
-- A `loadAll` that a `refreshActive` overtakes.
use connect_hub.Base.{
  ℕ, suc, ◌≤◌, ◌<◌, ◌≡◌, refl, ◌∙◌, subst, List, [], ◌∷◌, ◌++◌, arith, eqb, All, Bool-cases, inl,
  inr,
}
use connect_hub.Bridge.{ok, failed}
use connect_hub.Vpn.{
  begin_request, after_refresh_active, after_run_setup, start_connect, after_connect,
  after_disconnect, after_disconnect_all,
}
use connect_hub.Vpn.Refreshing.{
  Request, load, refresh, number, Client, Other, refreshes, load_answered, refresh_answered, set_up,
  connects, connect_answered, disconnect_answered, all_answered, Step, loads, goes, Steps, here,
  next, Others, still, more,
}
use connect_hub.Vpn.Refreshing.Newest.{id-after_load_all, id-after_refresh_active, load_discarded}

-- Every reload awaited has a number given out before.
abbrev pub Numbered : Client → Type 0
Numbered x = All (λ (q : Request). number q ≤ x.store.request_id) x.waiting

-- Every `loadAll` awaited is older than the newest reload.
abbrev pub IsStale : ℕ → Request → Type 0
IsStale newest (load n) = n < newest
IsStale newest (refresh n) = Unit {0}

abbrev pub Superseded : Client → Type 0
Superseded x = All (IsStale x.store.request_id) x.waiting

-- One reload leaves the list.
All-without :
    (P : Request → Type 0) (xs ys : List Request) (q : Request)
    → All P (xs ++ (q ∷ ys))
    → P q × All P (xs ++ ys)
All-without P [] ys q (h, hs) = (h, hs)
All-without P (x ∷ xs) ys q (h, hs) = let (hq, rest) = All-without P xs ys q hs in (hq, (h, rest))

All-map :
    {P Q : Request → Type 0} (xs : List Request) → ((q : Request) → P q → Q q) → All P xs → All Q xs
All-map [] f h = tt
All-map (x ∷ xs) f (h, hs) = (f x h, All-map xs f hs)

-- Whatever happens, the reloads awaited have numbers given out before.
Other-Numbered : {x y : Client} → Other x y → Numbered x → Numbered y
unfolding begin_request after_run_setup start_connect after_connect after_disconnect
    after_disconnect_all
Other-Numbered {x} refreshes v =
    (omega arith, All-map {P = λ q. number q ≤ x.store.request_id} x.waiting (λ q h. omega arith) v)
Other-Numbered {x} (load_answered before behind n e ps active i) v =
    rw (id-after_load_all x.store n ps active i)
      (All-without (λ q. number q ≤ x.store.request_id) before behind (load n)
        (subst (All (λ q. number q ≤ x.store.request_id)) e v)).1
Other-Numbered {x} (refresh_answered before behind n e active) v =
    rw (id-after_refresh_active x.store n active)
      (All-without (λ q. number q ≤ x.store.request_id) before behind (refresh n)
        (subst (All (λ q. number q ≤ x.store.request_id)) e v)).1
Other-Numbered (set_up i) v = v
Other-Numbered (connects p) v = v
Other-Numbered (connect_answered p (ok a)) v = v
Other-Numbered (connect_answered p (failed e)) v = v
Other-Numbered (disconnect_answered p (ok a)) v = v
Other-Numbered (disconnect_answered p (failed e)) v = v
Other-Numbered (all_answered (ok a)) v = v
Other-Numbered (all_answered (failed e)) v = v

Step-Numbered : {x y : Client} → Step x y → Numbered x → Numbered y
unfolding begin_request
Step-Numbered {x} loads v =
    (omega arith, All-map {P = λ q. number q ≤ x.store.request_id} x.waiting (λ q h. omega arith) v)
Step-Numbered (goes st) v = Other-Numbered st v

Steps-Numbered : {x y : Client} → Steps x y → Numbered x → Numbered y
Steps-Numbered here v = v
Steps-Numbered (next r st) v = Step-Numbered st (Steps-Numbered r v)

IsStale-later : (m n : ℕ) (q : Request) → m ≤ n → IsStale m q → IsStale n q
IsStale-later m n (load k) h s = omega arith
IsStale-later m n (refresh k) h s = tt

-- While no `loadAll` begins, overtaken ones stay overtaken, and change nothing.
Other-kept :
    {x y : Client} → Other x y → Superseded x → Superseded y × (y.store.profiles ≡ x.store.profiles)
unfolding begin_request after_run_setup start_connect after_connect after_disconnect
    after_disconnect_all after_refresh_active
Other-kept {x} refreshes v = (
  (
    tt,
    All-map {P = IsStale x.store.request_id} x.waiting (λ q. IsStale-later _ _ q (omega arith)) v,
  ),
  refl,
)
Other-kept {x} (load_answered before behind n e ps active i) v =
    let (old, rest) =
      All-without (IsStale x.store.request_id) before behind (load n)
        (subst (All (IsStale x.store.request_id)) e v) in
    rw (load_discarded x.store n ps active i old) (rest, refl)
Other-kept {x} (refresh_answered before behind n e active) v =
    let (old, rest) =
      All-without (IsStale x.store.request_id) before behind (refresh n)
        (subst (All (IsStale x.store.request_id)) e v) in
    elim (Bool-cases (eqb n x.store.request_id)) [
      | inl newest ↦ rw newest (rest, refl)
      | inr older ↦ rw older (rest, refl)
    ]
Other-kept (set_up i) v = (v, refl)
Other-kept (connects p) v = (v, refl)
Other-kept (connect_answered p (ok a)) v = (v, refl)
Other-kept (connect_answered p (failed e)) v = (v, refl)
Other-kept (disconnect_answered p (ok a)) v = (v, refl)
Other-kept (disconnect_answered p (failed e)) v = (v, refl)
Other-kept (all_answered (ok a)) v = (v, refl)
Other-kept (all_answered (failed e)) v = (v, refl)

Others-kept :
    {x y : Client}
    → Others x y
    → Superseded x
    → Superseded y × (y.store.profiles ≡ x.store.profiles)
Others-kept still v = (v, refl)
Others-kept (more r st) v =
    let (w, same) = Others-kept r v in let (w', same') = Other-kept st w in (w', same' ∙ same)

overtaken : (n : ℕ) (q : Request) → number q ≤ n → IsStale (suc n) q
overtaken n (load k) h = omega arith
overtaken n (refresh k) h = tt

-- From a client whose awaited reloads have numbers given out before, reach any state and let
-- `refreshActive` begin there. As long as no `loadAll` begins after that, the profiles stay
-- what they were, whatever is answered: a `loadAll` that was awaited is lost.
pub overtaken_load_lost :
    {x y z : Client}
    → Numbered x
    → Steps x y
    → Others
        (record {
          store = (begin_request y.store).0;
          waiting = refresh (begin_request y.store).1 ∷ y.waiting;
        })
        z
    → z.store.profiles ≡ y.store.profiles
unfolding begin_request
overtaken_load_lost {x} {y} v r later =
    let w = Steps-Numbered r v in
    (Others-kept later (
      tt,
      All-map {P = λ q. number q ≤ y.store.request_id} y.waiting (overtaken y.store.request_id) w,
    )).1
