-- ===== src/Reloading/Settled.antt =====
-- Overlapping changes and loads, in any order, and what the store shows once they are through.
use connect_hub.Base.{
  ℕ, suc, ◌+◌, ◌≤◌, ◌≡◌, ◌≢◌, ◌⊎◌, inl, inr, refl, sym, ◌∙◌, ap, subst, Bool, true, false, List, [],
  ◌∷◌, ◌++◌, map, All, arith, eqb, Bool-cases, if◌then◌else◌,
}
use connect_hub.Reloading.{Loading, IsGuarded}

-- A load that is awaited: its number, and whether no change was made at the backend since it began.
pub record Awaited : Type 0 where
  pub number : ℕ
  pub unchanged : Bool

abbrev touched : Awaited → Awaited
touched a = record a { unchanged = false }

-- The store, the backend's records, the changes made there whose own load has not begun, and the
-- loads awaited.
pub record World (S D : Type 0) : Type 0 where
  pub store : S
  pub records : D
  pub owed : ℕ
  pub loads : List Awaited

-- What a load may bring: the backend's records, or anything if they changed while it went on, since
-- its parts are read at different times.
abbrev pub Brings : {D : Type 0} → Bool → D → D → Type 0
Brings true fetched records = fetched ≡ records
Brings false fetched records = Unit

-- How many loads of a number are awaited.
abbrev awaited : ℕ → List Awaited → ℕ
awaited n [] = 0
awaited n (a ∷ rest) = (if eqb a.number n then 1 else 0) + awaited n rest

module _ {S D : Type 0} (l : Loading S D) where
  -- A change is made at the backend; once it has answered, the change's load begins; and a load's
  -- answer comes. A load may also begin by itself.
  pub data Step (w : World S D) : World S D → Type 0 where
    changed :
        (d : D) → Step w (record w { records = d; owed = suc w.owed; loads = map touched w.loads })
    began :
        (owed : ℕ)
        → w.owed ≤ suc owed
        → owed ≤ w.owed
        → Step w (record w {
          store = (l.begin w.store).0;
          owed = owed;
          loads = record { number = (l.begin w.store).1; unchanged = true } ∷ w.loads;
        })
    answered :
        (xs ys : List Awaited) (a : Awaited) (d : D)
        → w.loads ≡ xs ++ a ∷ ys
        → Brings a.unchanged d w.records
        → Step w (record w { store = l.finish w.store a.number d; loads = xs ++ ys })

  -- Before the first load, which is owed.
  pub data Reached : World S D → Type 0 where
    start : (s : S) (d : D) → Reached (record { store = s; records = d; owed = 1; loads = [] })
    next : {w x : World S D} → Reached w → Step w x → Reached x

  abbrev Within : S → Awaited → Type 0
  Within s a = a.number ≤ l.newest s

  abbrev Current : S → Awaited → Type 0
  Current s a = a.number ≡ l.newest s → a.unchanged ≡ true

  record Sound (w : World S D) : Type 0 where
    within : All (Within w.store) w.loads
    current : w.owed ≡ 0 → All (Current w.store) w.loads
    -- The newest load is awaited, or the store shows the records.
    pending : w.owed ≡ 0 → (1 ≤ awaited (l.newest w.store) w.loads) ⊎ (l.shown w.store ≡ w.records)

awaited-append : (n : ℕ) (xs ys : List Awaited) → awaited n (xs ++ ys) ≡ awaited n xs + awaited n ys
awaited-append n [] ys = omega arith
awaited-append n (x ∷ xs) ys = omega (arith, awaited-append n xs ys)

uncounted :
    (n : ℕ) (a : Awaited) (rest : List Awaited)
    → eqb a.number n ≡ false
    → awaited n (a ∷ rest) ≡ awaited n rest
uncounted n a rest miss = rw miss (omega arith)

All-touched :
    (P : ℕ → Type 0) (rest : List Awaited)
    → All (λ (a : Awaited). P a.number) rest
    → All (λ (a : Awaited). P a.number) (map touched rest)
All-touched P [] h = tt
All-touched P (a ∷ rest) (h, hs) = (h, All-touched P rest hs)

All-weaker :
    {P Q : Awaited → Type 0} (rest : List Awaited)
    → ((a : Awaited) → P a → Q a)
    → All P rest
    → All Q rest
All-weaker [] f h = tt
All-weaker (a ∷ rest) f (h, hs) = (f a h, All-weaker rest f hs)

All-middle :
    (P : Awaited → Type 0) (xs ys : List Awaited) (a : Awaited)
    → All P (xs ++ a ∷ ys)
    → P a × All P (xs ++ ys)
All-middle P [] ys a h = h
All-middle P (x ∷ xs) ys a (h, hs) = let (p, q) = All-middle P xs ys a hs in (p, (h, q))

module _ {S D : Type 0} (l : Loading S D) (g : IsGuarded l) where
  Sound-changed :
      (w : World S D) (d : D)
      → Sound l w
      → Sound l (record w { records = d; owed = suc w.owed; loads = map touched w.loads })
  Sound-changed w d v = record {
    within = All-touched (λ n. n ≤ l.newest w.store) w.loads v.within;
    current = λ e. absurd (omega (arith, e));
    pending = λ e. absurd (omega (arith, e));
  }

  Sound-began :
      (w : World S D) (owed : ℕ)
      → Sound l w
      → Sound l (record w {
        store = (l.begin w.store).0;
        owed = owed;
        loads = record { number = (l.begin w.store).1; unchanged = true } ∷ w.loads;
      })
  Sound-began w owed v = record {
    within = (
      omega (arith, g.begin_newest w.store, g.begin_number w.store),
      All-weaker w.loads (λ a h. omega (arith, g.begin_newest w.store)) v.within,
    );
    current = λ e. (
      λ h. refl,
      All-weaker w.loads (λ a h same. absurd (omega (arith, g.begin_newest w.store))) v.within,
    );
    pending = λ e. inl (ground (arith, g.begin_newest w.store, g.begin_number w.store));
  }

  Sound-answered :
      (w : World S D) (xs ys : List Awaited) (a : Awaited) (d : D)
      → w.loads ≡ xs ++ a ∷ ys
      → Brings a.unchanged d w.records
      → Sound l w
      → Sound l (record w { store = l.finish w.store a.number d; loads = xs ++ ys })
  Sound-answered w xs ys a d e b v =
      let same = g.finish_newest w.store a.number d in
      record {
        within =
            All-weaker (xs ++ ys) (λ a h. omega (arith, same))
              (All-middle _ xs ys a (subst (All (Within l w.store)) e v.within)).1;
        current = λ z.
            All-weaker (xs ++ ys) (λ a h is. h (is ∙ same))
              (All-middle _ xs ys a (subst (All (Current l w.store)) e (v.current z))).1;
        pending = λ z. pending z (Bool-cases (eqb a.number (l.newest w.store)));
      }
    where
      pending :
          w.owed ≡ 0
          → (eqb a.number (l.newest w.store) ≡ true) ⊎ (eqb a.number (l.newest w.store) ≡ false)
          → (1 ≤ awaited (l.newest (l.finish w.store a.number d)) (xs ++ ys))
            ⊎ (l.shown (l.finish w.store a.number d) ≡ w.records)
      pending z (inl hit) =
          let is : a.number ≡ l.newest w.store = ground (arith, hit) in
          let clean =
            (All-middle _ xs ys a (subst (All (Current l w.store)) e (v.current z))).0 is in
          inr (
            subst (λ n. l.shown (l.finish w.store n d) ≡ w.records) (sym is)
              (g.finish_taken w.store d ∙ subst (λ u. Brings u d w.records) clean b))
      pending z (inr miss) =
          let other : a.number ≢ l.newest w.store = ground (arith, miss) in
          elim (v.pending z) [
            | inl some_awaited ↦ inl (
                rw (g.finish_newest w.store a.number d) (
                  omega (
                    arith,
                    some_awaited,
                    ap (awaited (l.newest w.store)) e,
                    awaited-append (l.newest w.store) xs (a ∷ ys),
                    awaited-append (l.newest w.store) xs ys,
                    uncounted (l.newest w.store) a ys miss,
                  )))
            | inr shown ↦ inr (g.finish_dropped w.store a.number d other ∙ shown)
          ]

  Reached-Sound : {w : World S D} → Reached l w → Sound l w
  Reached-Sound (start s d) = record {
    within = tt;
    current = λ e. tt;
    pending = λ e. absurd (omega (arith, e));
  }
  Reached-Sound (next {w} r (changed d)) = Sound-changed w d (Reached-Sound r)
  Reached-Sound (next {w} r (began owed below above)) = Sound-began w owed (Reached-Sound r)
  Reached-Sound (next {w} r (answered xs ys a d e b)) =
      Sound-answered w xs ys a d e b (Reached-Sound r)

  pub settled_shows :
      {w : World S D} → Reached l w → w.owed ≡ 0 → w.loads ≡ [] → l.shown w.store ≡ w.records
  settled_shows {w} r none_owed none_awaited = elim ((Reached-Sound r).pending none_owed) [
    | inl awaits ↦ absurd (omega (arith, ap (awaited (l.newest w.store)) none_awaited))
    | inr shown ↦ shown
  ]
