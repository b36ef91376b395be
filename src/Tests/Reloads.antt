-- ===== src/Tests/Reloads.antt =====
-- src/state/hostsStore.ts, tagsStore.ts: a change while a load goes on.
use connect_hub.Base.{◌≡◌, refl, false, [], ◌∷◌, arith}
use connect_hub.Bridge.{Tag}
use connect_hub.Hosts.{HostsState, begin_load, after_load}
use connect_hub.Hosts
use connect_hub.Hosts.Loads.{Records, hosts_loading, hosts_settle}
use connect_hub.Reloading.Settled.{World, Reached, start, next, changed, began, answered}
use connect_hub.Tags.Overtaken.{Client, run, both_loading, loads_overtaken, answers}
use connect_hub.Tests.{web, db}

abbrev one : Records
one = ([], web ∷ [], [], [])

abbrev two : Records
two = ([], web ∷ db ∷ [], [], [])

-- A load, a change, its load, the second load's answer, and then the first one's.
abbrev first_begun : HostsState
first_begun = (begin_load Hosts.initial).0

abbrev both_begun : HostsState
both_begun = (begin_load first_begun).0

abbrev settled : World HostsState Records
settled = record {
  store = hosts_loading.finish (hosts_loading.finish both_begun 2 two) 1 one;
  records = two;
  owed = 0;
  loads = [];
}

settled-Reached : Reached hosts_loading settled
unfolding begin_load
settled-Reached =
    next
      (next
        (next
          (next (next (start Hosts.initial one) (began 0 (omega arith) (omega arith)))
            (changed two))
          (began 0 (omega arith) (omega arith)))
        (answered [] _ _ two refl refl))
      (answered [] [] _ one refl tt)

hosts_settle_example : hosts_loading.shown settled.store ≡ settled.records
hosts_settle_example = hosts_settle settled-Reached refl refl

abbrev urgent : Tag
urgent = record { id = "t"; label = "urgent" }

abbrev untagged : Client
untagged = record { store = record { tags = []; loaded = false }; records = []; awaited = [] }

loads_overtaken_example :
    let in_turn = run (both_loading untagged (urgent ∷ [])) (answers 0 ∷ answers 0 ∷ []) in
    let overtaken = run (both_loading untagged (urgent ∷ [])) (answers 1 ∷ answers 0 ∷ []) in
    (in_turn.store.tags ≡ urgent ∷ [])
    × (in_turn.awaited ≡ [])
    × (overtaken.store.tags ≡ [])
    × (overtaken.records ≡ urgent ∷ [])
    × (overtaken.awaited ≡ [])
loads_overtaken_example = loads_overtaken untagged (urgent ∷ [])
