-- ===== src/Sessions/Reorder.antt =====
-- src/state/sessionsStore.ts, `reorderSessions`: dragging a tab to another place.
use mathlib.Core.List.{Perm}
use mathlib.Core.List.Perm
use connect_hub.Base.{
  ℕ, zero, suc, ◌+◌, ◌-◌, ◌≤◌, ◌<◌, ◌≡◌, refl, ap, true, false, ◌||◌, List, [], ◌∷◌, ◌++◌, some,
  arith, if◌then◌else◌, maybe, length, leb, ltb, eqb, min, get_elem?, take, drop, ℤ, pos, negsuc,
  Bool-cases, Option-cases, inl, inr,
}
use connect_hub.Sessions.{OpenSession, SessionsState}

module _ {ℓ} {A : Type ℓ} where
  -- `xs.splice(i, 1)`
  abbrev pub remove_at : ℕ → List A → List A
  remove_at i [] = []
  remove_at zero (x ∷ xs) = xs
  remove_at (suc i) (x ∷ xs) = x ∷ remove_at i xs

  -- `xs.splice(i, 0, a)`, for an index within the list.
  abbrev pub insert_at : ℕ → A → List A → List A
  insert_at i a xs = take i xs ++ (a ∷ drop i xs)

  pub move_to : ℕ → ℕ → List A → List A
  move_to from_index to_index xs =
      if eqb from_index to_index || (leb (length xs) from_index || ltb (length xs) to_index)
      then xs
      else let next = remove_at from_index xs in
        let insert_at_index = if ltb from_index to_index then to_index - 1 else to_index in
        maybe xs (λ moved. insert_at (min insert_at_index (length next)) moved next)
          (get_elem? xs from_index)

module _ {W : Type 0} where
  -- A negative index changes nothing.
  unfoldable pub reorder_sessions : SessionsState W → ℤ → ℤ → SessionsState W
  unfolding move_to
  reorder_sessions s (pos from_index) (pos to_index) = record s {
    open_sessions = move_to from_index to_index s.open_sessions;
  }
  reorder_sessions s (negsuc i) to_index = s
  reorder_sessions s (pos from_index) (negsuc i) = s

module _ {ℓ} {A : Type ℓ} where
  get_elem?-in : (xs : List A) (i : ℕ) → i < length xs → (a : A) × (get_elem? xs i ≡ some a)
  get_elem?-in [] i h = absurd (omega arith)
  get_elem?-in (x ∷ xs) zero h = (x, refl)
  get_elem?-in (x ∷ xs) (suc i) h = get_elem?-in xs i (omega arith)

  remove_at-perm :
      (xs : List A) (i : ℕ) (a : A) → get_elem? xs i ≡ some a → Perm (a ∷ remove_at i xs) xs
  remove_at-perm [] i a h = absurd (ground arith)
  remove_at-perm (x ∷ xs) zero a h = Perm.cons' (ground arith) Perm.rfl
  remove_at-perm (x ∷ xs) (suc i) a h =
      Perm.trans (Perm.swap x a (remove_at i xs)) (Perm.cons x (remove_at-perm xs i a h))

  insert_at-perm : (i : ℕ) (a : A) (xs : List A) → Perm (insert_at i a xs) (a ∷ xs)
  insert_at-perm zero a xs = Perm.rfl
  insert_at-perm (suc i) a [] = Perm.rfl
  insert_at-perm (suc i) a (x ∷ xs) =
      Perm.trans (Perm.cons x (insert_at-perm i a xs)) (Perm.swap a x xs)

  -- A move changes nothing, or takes an element out and puts it back somewhere.
  pub move_to_cases {κ} :
      (P : List A → Type κ) (i j : ℕ) (xs : List A)
      → P xs
      → ((k : ℕ) (a : A) → get_elem? xs i ≡ some a → P (insert_at k a (remove_at i xs)))
      → P (move_to i j xs)
  unfolding move_to
  move_to_cases P i j xs same moved =
      elim (Bool-cases (eqb i j || (leb (length xs) i || ltb (length xs) j))) [
        | inl out ↦ rw out same
        | inr fine ↦ rw fine (elim (Option-cases (get_elem? xs i)) [
          | inl missing ↦ rw missing same
          | inr (a, found) ↦ rw found (moved _ a found)
        ])
      ]

  move_to-perm : (i j : ℕ) (xs : List A) → Perm (move_to i j xs) xs
  move_to-perm i j xs =
      move_to_cases (λ ys. Perm ys xs) i j xs Perm.rfl
        λ k a found. Perm.trans (insert_at-perm k a (remove_at i xs)) (remove_at-perm xs i a found)

  length-remove_at :
      (i : ℕ) (xs : List A) → i < length xs → suc (length (remove_at i xs)) ≡ length xs
  length-remove_at i [] h = absurd (omega arith)
  length-remove_at zero (x ∷ xs) h = refl
  length-remove_at (suc i) (x ∷ xs) h = ap suc (length-remove_at i xs (omega arith))

  take-remove_at_after :
      (i j : ℕ) (xs : List A) → i ≤ j → take j (remove_at i xs) ≡ remove_at i (take (suc j) xs)
  take-remove_at_after i zero [] h = refl
  take-remove_at_after i (suc j) [] h = refl
  take-remove_at_after zero j (x ∷ xs) h = refl
  take-remove_at_after (suc i) zero (x ∷ xs) h = absurd (omega arith)
  take-remove_at_after (suc i) (suc j) (x ∷ xs) h =
      ap (λ r. x ∷ r) (take-remove_at_after i j xs (omega arith))

  drop-remove_at_after : (i j : ℕ) (xs : List A) → i ≤ j → drop j (remove_at i xs) ≡ drop (suc j) xs
  drop-remove_at_after i zero [] h = refl
  drop-remove_at_after i (suc j) [] h = refl
  drop-remove_at_after zero j (x ∷ xs) h = refl
  drop-remove_at_after (suc i) zero (x ∷ xs) h = absurd (omega arith)
  drop-remove_at_after (suc i) (suc j) (x ∷ xs) h = drop-remove_at_after i j xs (omega arith)

  take-remove_at_before : (i j : ℕ) (xs : List A) → j ≤ i → take j (remove_at i xs) ≡ take j xs
  take-remove_at_before i zero xs h = refl
  take-remove_at_before i (suc j) [] h = refl
  take-remove_at_before zero (suc j) (x ∷ xs) h = absurd (omega arith)
  take-remove_at_before (suc i) (suc j) (x ∷ xs) h =
      ap (λ r. x ∷ r) (take-remove_at_before i j xs (omega arith))

  drop-remove_at_before :
      (i j k : ℕ) (xs : List A) → i ≡ j + k → drop j (remove_at i xs) ≡ remove_at k (drop j xs)
  drop-remove_at_before i zero k xs h = let e : i ≡ k = omega arith in ap (λ n. remove_at n xs) e
  drop-remove_at_before i (suc j) k [] h = refl
  drop-remove_at_before zero (suc j) k (x ∷ xs) h = absurd (omega arith)
  drop-remove_at_before (suc i) (suc j) k (x ∷ xs) h = drop-remove_at_before i j k xs (omega arith)

  move_to_forward :
      (i j : ℕ) (xs : List A) {a : A}
      → i ≤ j
      → j < length xs
      → get_elem? xs i ≡ some a
      → move_to i (suc j) xs ≡ remove_at i (take (suc j) xs) ++ (a ∷ drop (suc j) xs)
  unfolding move_to
  move_to_forward i j xs {a} h k found =
      let size = length-remove_at i xs (omega arith) in
      let place : min (suc j - 1) (length (remove_at i xs)) ≡ j = omega (arith, size) in
      let forward : ltb i (suc j) ≡ true = ground arith in
      let fine : (eqb i (suc j) || (leb (length xs) i || ltb (length xs) (suc j))) ≡ false =
        ground arith in
      rw (fine, forward, found, place, take-remove_at_after i j xs h, drop-remove_at_after i j xs h)

  move_to_back :
      (j k : ℕ) (xs : List A) {a : A}
      → 0 < k
      → j + k < length xs
      → get_elem? xs (j + k) ≡ some a
      → move_to (j + k) j xs ≡ take j xs ++ (a ∷ remove_at k (drop j xs))
  unfolding move_to
  move_to_back j k xs {a} h n found =
      let size = length-remove_at (j + k) xs n in
      let place : min j (length (remove_at (j + k) xs)) ≡ j = omega (arith, size) in
      let back : ltb (j + k) j ≡ false = ground arith in
      let fine : (eqb (j + k) j || (leb (length xs) (j + k) || ltb (length xs) j)) ≡ false =
        ground arith in
      rw (
        fine,
        back,
        found,
        place,
        take-remove_at_before (j + k) j xs (omega arith),
        drop-remove_at_before (j + k) j k xs refl,
      )

module _ {W : Type 0} where
  pub reorder_sessions_cases {κ} :
      (P : List (OpenSession W) → Type κ) (s : SessionsState W) (i j : ℤ)
      → P s.open_sessions
      → ((n k : ℕ) (o : OpenSession W)
          → get_elem? s.open_sessions n ≡ some o
          → P (insert_at k o (remove_at n s.open_sessions)))
      → P (reorder_sessions s i j).open_sessions
  unfolding reorder_sessions
  reorder_sessions_cases P s (pos i) (pos j) same moved =
      move_to_cases P i j s.open_sessions same (λ k o found. moved i k o found)
  reorder_sessions_cases P s (negsuc i) j same moved = same
  reorder_sessions_cases P s (pos i) (negsuc j) same moved = same

  -- Reordering, to and from whatever index, keeps every tab: the open tabs after it are a
  -- permutation of those before.
  pub reorder_sessions-perm :
      (s : SessionsState W) (from_index to_index : ℤ)
      → Perm (reorder_sessions s from_index to_index).open_sessions s.open_sessions
  unfolding reorder_sessions
  reorder_sessions-perm s (pos i) (pos j) = move_to-perm i j s.open_sessions
  reorder_sessions-perm s (negsuc i) j = Perm.rfl
  reorder_sessions-perm s (pos i) (negsuc j) = Perm.rfl

  -- Moving a tab to behind a later one, or behind itself: the tab stands directly before what
  -- stood at the index given, and the others keep their order.
  pub reorder_sessions_forward :
      (s : SessionsState W) (i j : ℕ) (o : OpenSession W)
      → i ≤ j
      → j < length s.open_sessions
      → get_elem? s.open_sessions i ≡ some o
      → (reorder_sessions s (pos i) (pos (suc j))).open_sessions
        ≡ remove_at i (take (suc j) s.open_sessions) ++ (o ∷ drop (suc j) s.open_sessions)
  unfolding reorder_sessions
  reorder_sessions_forward s i j o h n found = move_to_forward i j s.open_sessions h n found

  -- Moving a tab to before an earlier one: it stands directly before what stood at the index
  -- given, and the others keep their order.
  pub reorder_sessions_back :
      (s : SessionsState W) (j k : ℕ) (o : OpenSession W)
      → 0 < k
      → j + k < length s.open_sessions
      → get_elem? s.open_sessions (j + k) ≡ some o
      → (reorder_sessions s (pos (j + k)) (pos j)).open_sessions
        ≡ take j s.open_sessions ++ (o ∷ remove_at k (drop j s.open_sessions))
  unfolding reorder_sessions
  reorder_sessions_back s j k o h n found = move_to_back j k s.open_sessions h n found

  pub drawn-reorder_sessions :
      (s : SessionsState W) (i j : ℤ) → (reorder_sessions s i j).drawn ≡ s.drawn
  unfolding reorder_sessions
  drawn-reorder_sessions s (pos i) (pos j) = refl
  drawn-reorder_sessions s (negsuc i) j = refl
  drawn-reorder_sessions s (pos i) (negsuc j) = refl
