-- ===== src/Uuid.antt =====
-- `crypto.randomUUID`, which the platform provides: the k-th identifier drawn. What the code relies
-- on is that no identifier is drawn twice, and that none is the empty text.
use text.Mathlib.TextLemmas.{cons-eq-cons, cons-ne-nil}
use connect_hub.Base.{
  ℕ, zero, suc, ◌+◌, ◌≤◌, ◌<◌, ◌≡◌, ◌≢◌, refl, sym, ap, ◌∙◌, String, List, [], ◌∷◌, ◌++◌, arith,
  ◌==◌, eq_iff, occurs, occurs-append, Distinct, hit, hit_ne, hit_le, hit-false, Bool-cases,
  zero_or_pos, inl, inr,
}

pub record IsUuid (uuid : ℕ → String) : Type 0 where
  pub injective : (j k : ℕ) → uuid j ≡ uuid k → j ≡ k
  pub nonempty : (k : ℕ) → uuid k ≢ ""

-- The identifiers of a list were drawn from number `lo` on and before number `hi`, each once.
pub record DrawnIn (uuid : ℕ → String) (lo hi : ℕ) (ids : List String) : Type 0 where
  pub known : (x : String) → 0 < occurs x ids → (k : ℕ) × (lo ≤ k) × (k < hi) × (x ≡ uuid k)
  pub once : Distinct ids

module _ {uuid : ℕ → String} (u : IsUuid uuid) where
  pub hit-uuid : (j k : ℕ) → j ≢ k → hit (uuid j) (uuid k) ≡ 0
  hit-uuid j k h = hit_ne (uuid j) (uuid k) (λ e. h (u.injective j k e))

module _ (uuid : ℕ → String) where
  pub DrawnIn-nil : (n : ℕ) → DrawnIn uuid n n []
  DrawnIn-nil n = record { known = λ x h. absurd (omega arith); once = λ x. omega arith }

  pub DrawnIn-one : (n : ℕ) → DrawnIn uuid n (suc n) (uuid n ∷ [])
  DrawnIn-one n = record {
    known = λ x h. elim (Bool-cases (uuid n == x)) [
      | inl same ↦ (n, omega arith, omega arith, sym ((eq_iff (uuid n) x).0 same))
      | inr other ↦ absurd (omega (arith, hit-false (uuid n) x other))
    ];
    once = λ x. omega (arith, hit_le (uuid n) x);
  }

  pub DrawnIn-widen :
      {lo : ℕ} {ids : List String} (mid hi : ℕ)
      → mid ≤ hi
      → DrawnIn uuid lo mid ids
      → DrawnIn uuid lo hi ids
  DrawnIn-widen mid hi h d = record {
    known = λ x o. let (k, l, m, e) = d.known x o in (k, l, omega arith, e);
    once = d.once;
  }

  module _ (u : IsUuid uuid) where
    pub DrawnIn-append :
        (lo mid hi : ℕ) (xs ys : List String)
        → lo ≤ mid
        → mid ≤ hi
        → DrawnIn uuid lo mid xs
        → DrawnIn uuid mid hi ys
        → DrawnIn uuid lo hi (xs ++ ys)
    DrawnIn-append lo mid hi xs ys p q dx dy = record { known = known; once = once }
      where
        known :
            (x : String) → 0 < occurs x (xs ++ ys) → (k : ℕ) × (lo ≤ k) × (k < hi) × (x ≡ uuid k)
        known x h = elim (zero_or_pos (occurs x xs)) [
          | inl z ↦
              let (k, l, m, e) = dy.known x (omega (arith, occurs-append x xs ys)) in
              (k, omega arith, m, e)
          | inr z ↦ let (k, l, m, e) = dx.known x z in (k, l, omega arith, e)
        ]

        apart : (x : String) → 0 < occurs x xs → 0 < occurs x ys → ⊥
        apart x a b =
            let (j, l, m, e) = dx.known x a in
            let (k, l', m', e') = dy.known x b in
            let same : j ≡ k = u.injective j k (sym e ∙ e') in omega arith

        once : Distinct (xs ++ ys)
        once x = elim (zero_or_pos (occurs x xs)) [
          | inl z ↦ omega (arith, occurs-append x xs ys, dy.once x)
          | inr a ↦ elim (zero_or_pos (occurs x ys)) [
            | inl z ↦ omega (arith, occurs-append x xs ys, dx.once x)
            | inr b ↦ absurd (apart x a b)
          ]
        ]

module _ (uuid : ℕ → String) {lo hi : ℕ} {ids : List String} (d : DrawnIn uuid lo hi ids) where
  -- Identifiers drawn beside older ones stay distinct from them.
  pub DrawnIn-beside :
      (old : List String) (x : String)
      → occurs x old ≤ 1
      → ((k : ℕ) → lo ≤ k → occurs (uuid k) old ≡ 0)
      → occurs x old + occurs x ids ≤ 1
  DrawnIn-beside old x once fresh = elim (zero_or_pos (occurs x ids)) [
    | inl z ↦ omega arith
    | inr a ↦
        let (k, l, m, e) = d.known x a in
        let none_old : occurs x old ≡ 0 = rw e (fresh k l) in omega (arith, d.once x)
  ]

  -- What is drawn later does not occur.
  pub DrawnIn-later : IsUuid uuid → (k : ℕ) → hi ≤ k → occurs (uuid k) ids ≡ 0
  DrawnIn-later u k h = elim (zero_or_pos (occurs (uuid k) ids)) [
    | inl z ↦ z
    | inr a ↦
        let (j, l, m, e) = d.known (uuid k) a in
        let same : k ≡ j = u.injective k j e in absurd (omega arith)
  ]

-- The supply of identifiers that the examples use: "a", "aa", "aaa" and so on.
abbrev pub counting : ℕ → String
counting zero = "a"
counting (suc k) = String.◌∷◌ "a" (counting k)

counting_nonempty : (k : ℕ) → counting k ≢ ""
counting_nonempty zero e = cons-ne-nil _ _ e
counting_nonempty (suc k) e = cons-ne-nil _ _ e

counting_injective : (j k : ℕ) → counting j ≡ counting k → j ≡ k
counting_injective zero zero e = refl
counting_injective zero (suc k) e = absurd (counting_nonempty k (sym (cons-eq-cons.0 e).1))
counting_injective (suc j) zero e = absurd (counting_nonempty j (cons-eq-cons.0 e).1)
counting_injective (suc j) (suc k) e = ap suc (counting_injective j k (cons-eq-cons.0 e).1)

pub counting-IsUuid : IsUuid counting
counting-IsUuid = record { injective = counting_injective; nonempty = counting_nonempty }
