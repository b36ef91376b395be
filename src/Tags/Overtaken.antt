-- ===== src/Tags/Overtaken.antt =====
-- src/state/tagsStore.ts: loads that overlap, answered in any order. Each load brings the tags that
-- the backend had when it began.
use connect_hub.Base.{
  ℕ, suc, ◌≡◌, refl, ap, List, [], ◌∷◌, ◌++◌, append_assoc, append-nil, some, maybe, length,
  get_elem?,
}
use connect_hub.Bridge.{Tag}
use connect_hub.Sessions.Reorder.{remove_at}
use connect_hub.Tags.{TagsState, after_load}

-- The store, the backend's tags, and what each awaited load brings, the oldest load first.
pub record Client : Type 0 where
  pub store : TagsState
  pub records : List Tag
  pub awaited : List (List Tag)

-- A load begins; the backend's tags change; the load at a place among those awaited is answered.
pub data Event : Type 0 where
  begins : Event
  changes : List Tag → Event
  answers : ℕ → Event

abbrev handle : Client → Event → Client
handle x begins = record x { awaited = x.awaited ++ (x.records ∷ []) }
handle x (changes tags) = record x { records = tags }
handle x (answers n) = record x {
  store = maybe x.store (after_load x.store) (get_elem? x.awaited n);
  awaited = remove_at n x.awaited;
}

abbrev pub run : Client → List Event → Client
run x [] = x
run x (e ∷ es) = run (handle x e) es

module _ {A : Type 0} where
  get_elem?-behind : (xs ys : List A) (a : A) → get_elem? (xs ++ (a ∷ ys)) (length xs) ≡ some a
  get_elem?-behind [] ys a = refl
  get_elem?-behind (x ∷ xs) ys a = get_elem?-behind xs ys a

  get_elem?-second :
      (xs ys : List A) (a b : A) → get_elem? (xs ++ (a ∷ b ∷ ys)) (suc (length xs)) ≡ some b
  get_elem?-second [] ys a b = refl
  get_elem?-second (x ∷ xs) ys a b = get_elem?-second xs ys a b

  remove_at-behind : (xs ys : List A) (a : A) → remove_at (length xs) (xs ++ (a ∷ ys)) ≡ xs ++ ys
  remove_at-behind [] ys a = refl
  remove_at-behind (x ∷ xs) ys a = ap (λ zs. x ∷ zs) (remove_at-behind xs ys a)

  remove_at-second :
      (xs ys : List A) (a b : A) → remove_at (suc (length xs)) (xs ++ (a ∷ b ∷ ys)) ≡ xs ++ (a ∷ ys)
  remove_at-second [] ys a b = refl
  remove_at-second (x ∷ xs) ys a b = ap (λ zs. x ∷ zs) (remove_at-second xs ys a b)

-- A load before a change of the backend's tags, and one after it.
abbrev pub both_loading : Client → List Tag → Client
both_loading x new = run x (begins ∷ changes new ∷ begins ∷ [])

both_awaited :
    (x : Client) (new : List Tag)
    → (both_loading x new).awaited ≡ x.awaited ++ (x.records ∷ new ∷ [])
both_awaited x new = append_assoc x.awaited (x.records ∷ []) (new ∷ [])

-- Let a load of the tags begin, then the backend's tags change to `new`, and then another load
-- begin, each load bringing the tags that the backend had when it began. If the two are
-- answered in turn, the store shows `new` afterwards; if the second is answered before the
-- first, it shows the tags from before the change, while the backend has `new`. Either way no
-- further load is awaited than at first.
pub loads_overtaken :
    (x : Client) (new : List Tag)
    → let n = length x.awaited in
      let in_turn = run (both_loading x new) (answers n ∷ answers n ∷ []) in
      let overtaken = run (both_loading x new) (answers (suc n) ∷ answers n ∷ []) in
      (in_turn.store.tags ≡ new)
      × (in_turn.awaited ≡ x.awaited)
      × (overtaken.store.tags ≡ x.records)
      × (overtaken.records ≡ new)
      × (overtaken.awaited ≡ x.awaited)
unfolding after_load
loads_overtaken x new =
    let n = length x.awaited in
    rw
      (
        both_awaited x new,
        get_elem?-behind x.awaited (new ∷ []) x.records,
        remove_at-behind x.awaited (new ∷ []) x.records,
        get_elem?-second x.awaited [] x.records new,
        remove_at-second x.awaited [] x.records new,
        get_elem?-behind x.awaited [] new,
        remove_at-behind x.awaited [] new,
        get_elem?-behind x.awaited [] x.records,
        remove_at-behind x.awaited [] x.records,
      )
      (refl, append-nil x.awaited, refl, refl, append-nil x.awaited)
