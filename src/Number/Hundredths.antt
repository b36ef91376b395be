-- ===== src/Number/Hundredths.antt =====
-- The laws of `Number` can be met: whole hundredths, with `none` for NaN.
use connect_hub.Base.{
  ℕ, ◌+◌, ◌-◌, ◌*◌, ◌/◌, ◌≤◌, Bool, true, false, Option, none, some, arith, leb, le→leb, leb→le,
  ◌≡◌,
}
use Prim.Native.Nat.{◌^◌}
use native.Mathlib.Nat.{div-le_of_le-mul}
use connect_hub.Number.{Number, ◌≼◌, nought, IsOrdered, IsRounded}

abbrev pub Hundredths : Type 0
Hundredths = Option ℕ

abbrev le_hundredths : Hundredths → Hundredths → Bool
le_hundredths (some a) (some b) = leb a b
le_hundredths _ _ = false

abbrev is_number : Hundredths → Bool
is_number (some a) = true
is_number none = false

abbrev on_numbers : (ℕ → ℕ → ℕ) → Hundredths → Hundredths → Hundredths
on_numbers f (some a) (some b) = some (f a b)
on_numbers f _ _ = none

instance abbrev pub hundredths : Number Hundredths
hundredths = record {
  le = le_hundredths;
  is_finite = is_number;
  plus = on_numbers ◌+◌;
  minus = on_numbers ◌-◌;
  times = on_numbers (λ a b. a * b / 100);
  decimal = λ i k. some (i * 100 / 10 ^ k);
}

pub Hundredths-IsOrdered : IsOrdered Hundredths
Hundredths-IsOrdered = ground arith

share_bound : (a r : ℕ) → r ≤ 100 → a * r / 100 ≤ a
share_bound a r h = div-le_of_le-mul 100 (grind arith)

pub Hundredths-IsRounded : IsRounded Hundredths
Hundredths-IsRounded = record {
  finite_of_le = ground arith;
  share_nonneg = ground arith;
  share_le = share_le;
  rest_nonneg = ground arith;
  rest_le = ground arith;
  minus-literal_le = ground arith;
}
  where
    share_le :
        (x r : Hundredths)
        → is_number x ≡ true
        → nought ≼ x
        → nought ≼ r
        → r ≼ some 100
        → on_numbers (λ a b. a * b / 100) x r ≼ x
    share_le (some a) (some r) f p q h = le→leb (a * r / 100) a (share_bound a r (leb→le r 100 h))
    share_le none r f p q h = p
    share_le (some a) none f p q h = q
