-- ===== src/CommandHistory/Newest.antt =====
-- The history of a host after any number of commands.
use connect_hub.Base.{
  ℕ, zero, suc, ◌≤◌, ◌≡◌, refl, sym, ap, ◌∙◌, String, List, [], ◌∷◌, ◌++◌, append_assoc,
  length-take, arith, take, length, eq_iff,
}
use connect_hub.CommandHistory.{
  CommandHistoryEntry, Run, CommandHistoryState, max_entries_per_host, entry_of, history,
  record_run,
}

module _ {ℓ} {A : Type ℓ} where
  -- What a list is cut to beforehand, where something stands before it, is not seen.
  take-append-take :
      (n m : ℕ) (xs ys : List A) → n ≤ m → take n (xs ++ take m ys) ≡ take n (xs ++ ys)
  take-append-take zero m xs ys h = refl
  take-append-take (suc n) zero xs ys h = absurd (omega arith)
  take-append-take (suc n) (suc m) [] [] h = refl
  take-append-take (suc n) (suc m) [] (y ∷ ys) h =
      ap (y ∷◌) (take-append-take n m [] ys (omega arith))
  take-append-take (suc n) (suc m) (x ∷ xs) ys h =
      ap (x ∷◌) (take-append-take n (suc m) xs ys (omega arith))

  take-all : (n : ℕ) (xs : List A) → length xs ≤ n → take n xs ≡ xs
  take-all zero [] h = refl
  take-all (suc n) [] h = refl
  take-all zero (x ∷ xs) h = absurd (omega arith)
  take-all (suc n) (x ∷ xs) h = ap (x ∷◌) (take-all n xs (omega arith))

-- Commands with the times they were run at, each recorded after the one before it.
abbrev pub record_runs :
    (ℕ → String) → CommandHistoryState → String → List (String × Run) → CommandHistoryState
record_runs uuid s host_id [] = s
record_runs uuid s host_id (r ∷ rs) =
    record_runs uuid (record_run uuid s host_id r.0 r.1) host_id rs

-- Their entries, the newest first, before older ones.
abbrev pub entries_onto :
    (ℕ → String) → ℕ → List (String × Run) → List CommandHistoryEntry → List CommandHistoryEntry
entries_onto uuid n [] old = old
entries_onto uuid n (r ∷ rs) old = entries_onto uuid (suc n) rs (entry_of (uuid n) r.0 r.1 ∷ old)

entries_onto-append :
    (uuid : ℕ → String) (n : ℕ) (rs : List (String × Run)) (old : List CommandHistoryEntry)
    → entries_onto uuid n rs old ≡ entries_onto uuid n rs [] ++ old
entries_onto-append uuid n [] old = refl
entries_onto-append uuid n (r ∷ rs) old =
    let e = entry_of (uuid n) r.0 r.1 in
    entries_onto-append uuid (suc n) rs (e ∷ old)
    ∙ sym (append_assoc (entries_onto uuid (suc n) rs []) (e ∷ []) old)
    ∙ ap (λ es. es ++ old) (sym (entries_onto-append uuid (suc n) rs (e ∷ [])))

history-record_run :
    (uuid : ℕ → String) (s : CommandHistoryState) (h now : String) (r : Run)
    → history (record_run uuid s h now r) h
      ≡ take max_entries_per_host (entry_of (uuid s.drawn) now r ∷ history s h)
unfolding record_run
history-record_run uuid s h now r = rw ((eq_iff h h).1 refl)

-- Where a host's history has at most a hundred entries, recording any commands one after
-- another leaves the newest hundred of theirs and the older entries, the newest first, each
-- with the next identifier drawn.
pub history-record_runs :
    (uuid : ℕ → String) (s : CommandHistoryState) (h : String) (rs : List (String × Run))
    → length (history s h) ≤ max_entries_per_host
    → history (record_runs uuid s h rs) h
      ≡ take max_entries_per_host (entries_onto uuid s.drawn rs (history s h))
unfolding record_run
history-record_runs uuid s h [] few = sym (take-all max_entries_per_host (history s h) few)
history-record_runs uuid s h (r ∷ rs) few =
    let t = record_run uuid s h r.0 r.1 in
    let e = entry_of (uuid s.drawn) r.0 r.1 in
    let now : history t h ≡ take max_entries_per_host (e ∷ history s h) =
      history-record_run uuid s h r.0 r.1 in
    let few' : length (history t h) ≤ max_entries_per_host =
      rw now (omega (arith, length-take max_entries_per_host (e ∷ history s h))) in
    let new = entries_onto uuid (suc s.drawn) rs [] in
    history-record_runs uuid t h rs few'
    ∙ ap (take max_entries_per_host) (
        ap (entries_onto uuid (suc s.drawn) rs) now
        ∙ entries_onto-append uuid (suc s.drawn) rs (take max_entries_per_host (e ∷ history s h)))
    ∙ take-append-take max_entries_per_host max_entries_per_host new (e ∷ history s h) (omega arith)
    ∙ ap (take max_entries_per_host)
        (sym (entries_onto-append uuid (suc s.drawn) rs (e ∷ history s h)))
