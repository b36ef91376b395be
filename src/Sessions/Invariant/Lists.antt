-- ===== src/Sessions/Invariant/Lists.antt =====
-- Counts over the open tabs, through sums over a list.
use connect_hub.Base.{
  ℕ, zero, suc, ◌+◌, ◌≤◌, ◌≡◌, refl, subst, String, Bool, List, [], ◌∷◌, ◌++◌, map, some, arith,
  occurs, occurs-append, hit, get_elem?, filter, All, Bool-cases, inl, inr,
}
use mathlib.Core.Option.{some-injective}
use connect_hub.Sessions.{OpenSession}
use connect_hub.Sessions.Reorder.{remove_at, insert_at}
use connect_hub.Sessions.Invariant.{tab_panes, all_panes, tab_ids}

module _ {ℓ} {A : Type ℓ} (f : A → ℕ) where
  abbrev pub total : List A → ℕ
  total [] = 0
  total (x ∷ xs) = f x + total xs

  pub total-append : (xs ys : List A) → total (xs ++ ys) ≡ total xs + total ys
  total-append [] ys = omega arith
  total-append (x ∷ xs) ys = omega (arith, total-append xs ys)

  pub total-filter_le : (p : A → Bool) (xs : List A) → total (filter p xs) ≤ total xs
  total-filter_le p [] = omega arith
  total-filter_le p (x ∷ xs) = ground (arith, total-filter_le p xs)

  total-remove_at :
      (xs : List A) (i : ℕ) {a : A}
      → get_elem? xs i ≡ some a
      → f a + total (remove_at i xs) ≡ total xs
  total-remove_at [] i h = absurd (ground arith)
  total-remove_at (x ∷ xs) zero h = ground arith
  total-remove_at (x ∷ xs) (suc i) h = omega (arith, total-remove_at xs i h)

  total-insert_at : (i : ℕ) (a : A) (xs : List A) → total (insert_at i a xs) ≡ f a + total xs
  total-insert_at zero a xs = refl
  total-insert_at (suc i) a [] = refl
  total-insert_at (suc i) a (x ∷ xs) = omega (arith, total-insert_at i a xs)

module _ {ℓ κ} {A : Type ℓ} (P : A → Type κ) where
  pub All-filter : (p : A → Bool) (xs : List A) → All P xs → All P (filter p xs)
  All-filter p [] h = tt
  All-filter p (x ∷ xs) (h, hs) = elim (Bool-cases (p x)) [
    | inl kept ↦ rw kept (h, All-filter p xs hs)
    | inr dropped ↦ rw dropped (All-filter p xs hs)
  ]

  All-remove_at : (i : ℕ) (xs : List A) → All P xs → All P (remove_at i xs)
  All-remove_at i [] h = tt
  All-remove_at zero (x ∷ xs) h = h.1
  All-remove_at (suc i) (x ∷ xs) h = (h.0, All-remove_at i xs h.1)

  All-get_elem? : (xs : List A) (i : ℕ) {a : A} → All P xs → get_elem? xs i ≡ some a → P a
  All-get_elem? [] i h e = absurd (ground arith)
  All-get_elem? (x ∷ xs) zero h e = subst P (some-injective _ _ e) h.0
  All-get_elem? (x ∷ xs) (suc i) h e = All-get_elem? xs i h.1 e

  All-insert_at : (i : ℕ) (a : A) (xs : List A) → P a → All P xs → All P (insert_at i a xs)
  All-insert_at zero a xs p h = (p, h)
  All-insert_at (suc i) a [] p h = (p, tt)
  All-insert_at (suc i) a (x ∷ xs) p h = (h.0, All-insert_at i a xs p h.1)

module _ {ℓ} {A : Type ℓ} where
  -- Taking an element out and putting it back keeps sums and what holds of all.
  pub total_moved :
      (f : A → ℕ) (xs : List A) (i k : ℕ) {a : A}
      → get_elem? xs i ≡ some a
      → total f (insert_at k a (remove_at i xs)) ≡ total f xs
  total_moved f xs i k {a} e =
      omega (arith, total-insert_at f k a (remove_at i xs), total-remove_at f xs i e)

  pub All-moved {κ} :
      (P : A → Type κ) (xs : List A) (i k : ℕ) {a : A}
      → get_elem? xs i ≡ some a
      → All P xs
      → All P (insert_at k a (remove_at i xs))
  All-moved P xs i k {a} e h =
      All-insert_at P k a (remove_at i xs) (All-get_elem? P xs i h e) (All-remove_at P i xs h)

module _ {W : Type 0} where
  pub occurs-tab_ids :
      (x : String) (os : List (OpenSession W))
      → occurs x (tab_ids os) ≡ total (λ (o : OpenSession W). hit o.tab_id x) os
  occurs-tab_ids x [] = refl
  occurs-tab_ids x (o ∷ os) = omega (arith, occurs-tab_ids x os)

  pub occurs-all_panes :
      (x : String) (os : List (OpenSession W))
      → occurs x (all_panes os) ≡ total (λ (o : OpenSession W). occurs x (tab_panes o)) os
  occurs-all_panes x [] = refl
  occurs-all_panes x (o ∷ os) =
      omega (arith, occurs-append x (tab_panes o) (all_panes os), occurs-all_panes x os)

  pub map_same :
      (f : OpenSession W → OpenSession W) (os : List (OpenSession W))
      → ((o : OpenSession W) → (f o).tab_id ≡ o.tab_id)
      → tab_ids (map f os) ≡ tab_ids os
  map_same f [] same = refl
  map_same f (o ∷ os) same = rw (same o, map_same f os same)

  pub map_same_panes :
      (f : OpenSession W → OpenSession W) (os : List (OpenSession W))
      → ((o : OpenSession W) → tab_panes (f o) ≡ tab_panes o)
      → all_panes (map f os) ≡ all_panes os
  map_same_panes f [] same = refl
  map_same_panes f (o ∷ os) same = rw (same o, map_same_panes f os same)

  pub tab_ids-append :
      (os : List (OpenSession W)) (o : OpenSession W) (x : String)
      → occurs x (tab_ids (os ++ (o ∷ []))) ≡ occurs x (tab_ids os) + hit o.tab_id x
  tab_ids-append [] o x = omega arith
  tab_ids-append (p ∷ os) o x = omega (arith, tab_ids-append os o x)

  pub all_panes-append :
      (os : List (OpenSession W)) (o : OpenSession W) (x : String)
      → occurs x (all_panes (os ++ (o ∷ []))) ≡ occurs x (all_panes os) + occurs x (tab_panes o)
  all_panes-append [] o x = omega (arith, occurs-append x (tab_panes o) [])
  all_panes-append (p ∷ os) o x = omega (
    arith,
    all_panes-append os o x,
    occurs-append x (tab_panes p) (all_panes os),
    occurs-append x (tab_panes p) (all_panes (os ++ (o ∷ []))),
  )

module _ {ℓ κ} {A : Type ℓ} (P : A → Type κ) where
  pub All-map : (f : A → A) (xs : List A) → ((x : A) → P x → P (f x)) → All P xs → All P (map f xs)
  All-map f [] keep h = tt
  All-map f (x ∷ xs) keep (h, hs) = (keep x h, All-map f xs keep hs)
