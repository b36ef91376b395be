-- ===== src/Base/Sorting.antt =====
-- A stable sort by a comparison, as `Array.prototype.sort` sorts.
use mathlib.Core.Path.{◌≡◌, refl, ap, ◌∙◌}
use mathlib.Core.Logic.{inl, inr}
use mathlib.Core.Bool.{Bool, true, false}
use mathlib.Core.List.{List, [], ◌∷◌, Perm}
use mathlib.Core.List.Perm
use connect_hub.Base.Tests.{if◌then◌else◌, Bool-cases}
use connect_hub.Base.Lists.{All}

module _ {ℓ} {A : Type ℓ} (le : A → A → Bool) where
  -- The item goes before those that it does not come after.
  unfoldable pub insert_by : A → List A → List A
  insert_by x [] = x ∷ []
  insert_by x (y ∷ ys) = if le x y then x ∷ y ∷ ys else y ∷ insert_by x ys

  unfoldable pub sort_by : List A → List A
  unfolding insert_by
  sort_by [] = []
  sort_by (x ∷ xs) = insert_by x (sort_by xs)

  -- Each item comes before all that stand behind it.
  abbrev pub IsSorted : List A → Type ℓ
  IsSorted [] = Unit
  IsSorted (x ∷ xs) = All (λ y. le x y ≡ true) xs × IsSorted xs

  insert_by-perm : (x : A) (ys : List A) → Perm (insert_by x ys) (x ∷ ys)
  unfolding insert_by
  insert_by-perm x [] = Perm.rfl
  insert_by-perm x (y ∷ ys) = elim (Bool-cases (le x y)) [
    | inl before ↦ rw before Perm.rfl
    | inr behind ↦ rw behind (Perm.trans (Perm.cons y (insert_by-perm x ys)) (Perm.swap x y ys))
  ]

  pub sort_by-perm : (xs : List A) → Perm (sort_by xs) xs
  unfolding sort_by
  sort_by-perm [] = Perm.rfl
  sort_by-perm (x ∷ xs) = Perm.trans (insert_by-perm x (sort_by xs)) (Perm.cons x (sort_by-perm xs))

  -- A sorted list stays as it is.
  pub sort_by-sorted : (xs : List A) → IsSorted xs → sort_by xs ≡ xs
  unfolding sort_by
  sort_by-sorted [] h = refl
  sort_by-sorted (x ∷ []) h = refl
  sort_by-sorted (x ∷ y ∷ ys) (h, hs) = ap (insert_by x) (sort_by-sorted (y ∷ ys) hs) ∙ rw h.0

  module _ (total : (a b : A) → le a b ≡ false → le b a ≡ true)
      (trans : (a b c : A) → le a b ≡ true → le b c ≡ true → le a c ≡ true) where
    all_trans :
        (a b : A) (xs : List A)
        → le a b ≡ true
        → All (λ y. le b y ≡ true) xs
        → All (λ y. le a y ≡ true) xs
    all_trans a b [] p h = tt
    all_trans a b (x ∷ xs) p (h, hs) = (trans a b x p h, all_trans a b xs p hs)

    all_insert_by :
        (a x : A) (ys : List A)
        → le a x ≡ true
        → All (λ y. le a y ≡ true) ys
        → All (λ y. le a y ≡ true) (insert_by x ys)
    unfolding insert_by
    all_insert_by a x [] p h = (p, tt)
    all_insert_by a x (y ∷ ys) p (h, hs) = elim (Bool-cases (le x y)) [
      | inl before ↦ rw before (p, (h, hs))
      | inr behind ↦ rw behind (h, all_insert_by a x ys p hs)
    ]

    insert_by-IsSorted : (x : A) (ys : List A) → IsSorted ys → IsSorted (insert_by x ys)
    unfolding insert_by
    insert_by-IsSorted x [] h = (tt, tt)
    insert_by-IsSorted x (y ∷ ys) (h, hs) = elim (Bool-cases (le x y)) [
      | inl before ↦ rw before ((before, all_trans x y ys before h), (h, hs))
      | inr behind ↦
          rw behind (all_insert_by y x ys (total x y behind) h, insert_by-IsSorted x ys hs)
    ]

    pub sort_by-IsSorted : (xs : List A) → IsSorted (sort_by xs)
    unfolding sort_by
    sort_by-IsSorted [] = tt
    sort_by-IsSorted (x ∷ xs) = insert_by-IsSorted x (sort_by xs) (sort_by-IsSorted xs)
