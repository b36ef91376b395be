-- ===== src/Snippets/Loads.antt =====
-- src/state/snippetsStore.ts: what the store shows after any changes, with overlapping loads.
use connect_hub.Base.{◌≡◌, refl, List, [], arith}
use connect_hub.Bridge.{Snippet}
use connect_hub.Snippets.{SnippetsState, begin_load, after_load}
use connect_hub.Reloading.{Loading, IsGuarded}
use connect_hub.Reloading.Settled.{World, Reached, settled_shows}

abbrev snippets_loading : Loading SnippetsState (List Snippet)
snippets_loading = record {
  shown = λ s. s.snippets;
  newest = λ s. s.load_request_id;
  begin = begin_load;
  finish = after_load;
}

snippets_loading-IsGuarded : IsGuarded snippets_loading
unfolding begin_load after_load
snippets_loading-IsGuarded = record {
  begin_newest = λ s. refl;
  begin_number = λ s. refl;
  finish_newest = λ s n d. ground arith;
  finish_taken = λ s d. ground arith;
  finish_dropped = λ s n d other. ground (arith, other);
}

-- From any store on whose first load is owed, let snippets be changed at the backend and loads
-- begin and answer in any order, a load having begun after each change. Once none is owed and
-- none is awaited, the snippets shown are the backend's.
snippets_settle :
    {w : World SnippetsState (List Snippet)}
    → Reached snippets_loading w
    → w.owed ≡ 0
    → w.loads ≡ []
    → w.store.snippets ≡ w.records
snippets_settle r none_owed none_awaited =
    settled_shows snippets_loading snippets_loading-IsGuarded r none_owed none_awaited
