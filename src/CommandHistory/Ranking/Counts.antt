-- ===== src/CommandHistory/Ranking/Counts.antt =====
-- src/state/commandHistoryStore.ts: the rows of the ranking, and the commands they count.
use connect_hub.Base.{
  ℕ, suc, ◌+◌, ◌≤◌, ◌≡◌, refl, ap, some, length, length-append, sym, ◌∙◌, subst, String, false,
  List, [], ◌∷◌, ◌++◌, append_assoc, append-nil, map, ◌==◌, take, min, arith, All, Bool-cases,
  zero_or_pos, inl, inr, occurs, occurs-append, hit, hit_self, hit-true, hit-false, eq_iff, sort_by,
  sort_by-IsSorted,
}
use connect_hub.CommandHistory.Ranking.Order.{
  commands_of, IsRanked, IsSorted-IsRanked, sort_by-Tallies, ranks_total, ranks_trans,
}
use connect_hub.CommandHistory.Ranking.Last.{
  last_at, eq_swap, last_at-concat_self, last_at-concat_other,
}
use connect_hub.CommandHistory.Ranking.{
  Tally, count_command, count_from, ranks_before, rank_of, rank_remote_history,
}

-- A row counts its command as often as the command occurs, and has the position where it stands
-- last.
abbrev pub CountsIn : List String → Tally → Type 0
CountsIn seen t = (t.count ≡ occurs t.command seen) × (last_at t.command seen ≡ some t.last_index)

hit_swap : (x y : String) → hit x y ≡ hit y x
unfolding hit
hit_swap x y = ground (arith, eq_iff x y, eq_iff y x)

-- Another command does not change the rows that are not its own.
others_count :
    (seen : List String) (x : String) (ts : List Tally)
    → occurs x (commands_of ts) ≡ 0
    → All (CountsIn seen) ts
    → All (CountsIn (seen ++ (x ∷ []))) ts
others_count seen x [] absent h = tt
others_count seen x (t ∷ ts) absent ((h, last), hs) =
    let other : (t.command == x) ≡ false = elim (Bool-cases (t.command == x)) [
      | inl same ↦ absurd (omega (arith, absent, hit-true t.command x same))
      | inr other ↦ other
    ] in
    (
      (
        h ∙ omega (arith, occurs-append t.command seen (x ∷ []), hit_swap x t.command, absent),
        last_at-concat_other seen x t.command (eq_swap x t.command ∙ other) ∙ last,
      ),
      others_count seen x ts (omega (arith, absent)) hs,
    )

-- Counting one more command, in rows that have each command seen once.
count_command-counts :
    (seen : List String) (x : String) (index : ℕ) (ts : List Tally)
    → index ≡ length seen
    → occurs x (commands_of ts) ≡ min 1 (occurs x seen)
    → All (CountsIn seen) ts
    → All (CountsIn (seen ++ (x ∷ []))) (count_command x index ts)
unfolding count_command
count_command-counts seen x index [] at once h = (
  (
    omega (arith, once, occurs-append x seen (x ∷ []), hit_self x),
    last_at-concat_self seen x ∙ ap some (sym at),
  ),
  tt,
)
count_command-counts seen x index (t ∷ ts) at once ((h, last), hs) =
    elim (Bool-cases (t.command == x)) [
      | inl same ↦ rw same (
        (
          omega (
            arith,
            h,
            occurs-append t.command seen (x ∷ []),
            hit_swap x t.command,
            hit-true t.command x same,
          ),
          subst (λ c. last_at c (seen ++ (x ∷ [])) ≡ some index) (sym ((eq_iff t.command x).0 same))
              (last_at-concat_self seen x ∙ ap some (sym at)),
        ),
        others_count seen x ts (omega (arith, once, hit-true t.command x same)) hs,
      )
      | inr other ↦ rw other (
        (
          omega (
            arith,
            h,
            occurs-append t.command seen (x ∷ []),
            hit_swap x t.command,
            hit-false t.command x other,
          ),
          last_at-concat_other seen x t.command (eq_swap x t.command ∙ other) ∙ last,
        ),
        count_command-counts seen x index ts at (omega (arith, once, hit-false t.command x other))
            hs,
      )
    ]

-- It leaves the rows that there are, and adds one where there was none.
count_command-there :
    (x c : String) (index : ℕ) (ts : List Tally)
    → 1 ≤ occurs x (commands_of ts)
    → occurs c (commands_of (count_command x index ts)) ≡ occurs c (commands_of ts)
unfolding count_command
count_command-there x c index [] there = absurd (omega arith)
count_command-there x c index (t ∷ ts) there = elim (Bool-cases (t.command == x)) [
  | inl same ↦ rw same refl
  | inr other ↦
      rw other (
        omega
          (arith, count_command-there x c index ts (omega (arith, hit-false t.command x other))))
]

count_command-new :
    (x c : String) (index : ℕ) (ts : List Tally)
    → occurs x (commands_of ts) ≡ 0
    → occurs c (commands_of (count_command x index ts)) ≡ occurs c (commands_of ts) + hit x c
unfolding count_command
count_command-new x c index [] absent = omega arith
count_command-new x c index (t ∷ ts) absent = elim (Bool-cases (t.command == x)) [
  | inl same ↦ absurd (omega (arith, absent, hit-true t.command x same))
  | inr other ↦ rw other (omega (arith, count_command-new x c index ts (omega (arith, absent))))
]

-- Each command seen has one row.
abbrev pub HasRows : List String → List Tally → Type 0
HasRows seen ts = (c : String) → occurs c (commands_of ts) ≡ min 1 (occurs c seen)

count_command-HasRows :
    (seen : List String) (x : String) (index : ℕ) (ts : List Tally)
    → HasRows seen ts
    → HasRows (seen ++ (x ∷ [])) (count_command x index ts)
count_command-HasRows seen x index ts rows c = elim (zero_or_pos (occurs x (commands_of ts))) [
  | inl absent ↦ elim (Bool-cases (x == c)) [
    | inl same ↦ omega (
      arith,
      count_command-new x c index ts absent,
      occurs-append c seen (x ∷ []),
      hit-true x c same,
      subst (λ y. occurs y (commands_of ts) ≡ 0) ((eq_iff x c).0 same) absent,
      rows c,
    )
    | inr other ↦ omega (
      arith,
      count_command-new x c index ts absent,
      occurs-append c seen (x ∷ []),
      hit-false x c other,
      rows c,
    )
  ]
  | inr there ↦ elim (Bool-cases (x == c)) [
    | inl same ↦ omega (
      arith,
      count_command-there x c index ts there,
      occurs-append c seen (x ∷ []),
      hit-true x c same,
      subst (λ y. 1 ≤ occurs y (commands_of ts)) ((eq_iff x c).0 same) there,
      rows c,
    )
    | inr other ↦ omega (
      arith,
      count_command-there x c index ts there,
      occurs-append c seen (x ∷ []),
      hit-false x c other,
      rows c,
    )
  ]
]

-- The rows of what was seen.
pub record Tallies (seen : List String) (ts : List Tally) : Type 0 where
  pub rows : HasRows seen ts
  pub counts : All (CountsIn seen) ts

count_from-Tallies :
    (seen : List String) (index : ℕ) (ts : List Tally) (commands : List String)
    → index ≡ length seen
    → Tallies seen ts
    → Tallies (seen ++ commands) (count_from ts index commands)
unfolding count_from
count_from-Tallies seen index ts [] at h = subst (λ s. Tallies s ts) (sym (append-nil seen)) h
count_from-Tallies seen index ts (x ∷ commands) at h =
    subst (λ s. Tallies s (count_from (count_command x index ts) (suc index) commands))
      (append_assoc seen (x ∷ []) commands)
      (count_from-Tallies (seen ++ (x ∷ [])) (suc index) (count_command x index ts) commands
        (omega (arith, at, length-append seen (x ∷ [])))
        (record {
          rows = count_command-HasRows seen x index ts h.rows;
          counts = count_command-counts seen x index ts at (h.rows x) h.counts;
        }))

-- The ranking of a server's own history is the first `limit` rows of a list in which every
-- command that occurs has exactly one row, with the number of times that it occurs and the
-- position where it occurs last, the commands run more often before the others, and of two run
-- as often the one run last before the other.
pub rank_remote_history_lem :
    (commands : List String) (limit : ℕ)
    → (ranked : List Tally) × Tallies commands ranked
      × IsRanked ranked
      × (rank_remote_history commands limit ≡ take limit (map rank_of ranked))
unfolding rank_remote_history
rank_remote_history_lem commands limit =
    let none_seen : Tallies [] [] = record { rows = λ c. refl; counts = tt } in
    let counted = count_from [] 0 commands in
    let h = count_from-Tallies [] 0 [] commands refl none_seen in
    let (all, rows) = sort_by-Tallies (CountsIn commands) counted h.counts in
    (
      sort_by ranks_before counted,
      record { rows = λ c. rows c ∙ h.rows c; counts = all },
      IsSorted-IsRanked (sort_by ranks_before counted)
          (sort_by-IsSorted ranks_before ranks_total ranks_trans counted),
      refl,
    )
