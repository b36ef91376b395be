-- ===== src/CommandHistory/Ranking/Order.antt =====
-- src/state/commandHistoryStore.ts: the order of the ranking.
use connect_hub.Base.{
  ltb, ◌≤◌, ◌<◌, ◌⊎◌, IsSorted, ◌+◌, ◌≡◌, refl, String, true, false, List, [], ◌∷◌, map, arith, All,
  Bool-cases, inl, inr, occurs, hit, sort_by, insert_by,
}
use connect_hub.CommandHistory.Ranking.{Tally, ranks_before}

abbrev pub commands_of : List Tally → List String
commands_of ts = map (λ (t : Tally). t.command) ts

-- Sorting keeps the rows.
insert_by-Tallies :
    (P : Tally → Type 0) (t : Tally) (ts : List Tally)
    → P t
    → All P ts
    → All P (insert_by ranks_before t ts)
      × ((c : String)
          → occurs c (commands_of (insert_by ranks_before t ts))
            ≡ hit t.command c + occurs c (commands_of ts))
unfolding insert_by
insert_by-Tallies P t [] p h = ((p, tt), λ c. refl)
insert_by-Tallies P t (x ∷ ts) p (h, hs) = elim (Bool-cases (ranks_before t x)) [
  | inl before ↦ rw before ((p, (h, hs)), λ c. refl)
  | inr behind ↦
      let (all, rows) = insert_by-Tallies P t ts p hs in
      rw behind ((h, all), λ c. omega (arith, rows c))
]

pub sort_by-Tallies :
    (P : Tally → Type 0) (ts : List Tally)
    → All P ts
    → All P (sort_by ranks_before ts)
      × ((c : String)
          → occurs c (commands_of (sort_by ranks_before ts)) ≡ occurs c (commands_of ts))
unfolding sort_by
sort_by-Tallies P [] h = (tt, λ c. refl)
sort_by-Tallies P (t ∷ ts) (h, hs) =
    let (all, rows) = sort_by-Tallies P ts hs in
    let (all', rows') = insert_by-Tallies P t (sort_by ranks_before ts) h all in
    (all', λ c. omega (arith, rows c, rows' c))

pub ranks_total : (a b : Tally) → ranks_before a b ≡ false → ranks_before b a ≡ true
unfolding ranks_before
ranks_total a b h = ground (arith, h)

pub ranks_trans :
    (a b c : Tally) → ranks_before a b ≡ true → ranks_before b c ≡ true → ranks_before a c ≡ true
unfolding ranks_before
ranks_trans a b c p q = ground (arith, p, q)

-- A row was run more often than another, or as often and no less recently.
abbrev pub Outranks : Tally → Tally → Type 0
Outranks a b = (b.count < a.count) ⊎ ((a.count ≡ b.count) × (b.last_index ≤ a.last_index))

abbrev pub IsRanked : List Tally → Type 0
IsRanked [] = Unit {0}
IsRanked (t ∷ ts) = All (Outranks t) ts × IsRanked ts

ranks_before-Outranks : (a b : Tally) → ranks_before a b ≡ true → Outranks a b
unfolding ranks_before
ranks_before-Outranks a b e = elim (Bool-cases (ltb b.count a.count)) [
  | inl more ↦ inl (ground (arith, more))
  | inr no_more ↦ inr (ground (arith, e, no_more))
]

all-Outranks :
    (t : Tally) (ts : List Tally)
    → All (λ (u : Tally). ranks_before t u ≡ true) ts
    → All (Outranks t) ts
all-Outranks t [] h = tt
all-Outranks t (u ∷ ts) (h, hs) = (ranks_before-Outranks t u h, all-Outranks t ts hs)

pub IsSorted-IsRanked : (ts : List Tally) → IsSorted ranks_before ts → IsRanked ts
IsSorted-IsRanked [] h = tt
IsSorted-IsRanked (t ∷ ts) (h, hs) = (all-Outranks t ts h, IsSorted-IsRanked ts hs)
