-- ===== src/Base/Texts.antt =====
-- Texts as identifiers, and how often one occurs in a list.
use Prim.Native.Nat.{ℕ, ◌+◌, ◌≤◌}
use Prim.Native.Char.{code}
use Prim.Native.String.{String}
use mathlib.Core.Path.{◌≡◌}
use mathlib.Core.Logic.{◌≢◌}
use mathlib.Core.Bool.{Bool, true, false}
use mathlib.Core.List.{List, [], ◌∷◌, ◌++◌}
use mathlib.Core.Option.{Option, none, some}
use native.Mathlib.Omega.{arith}
use text.Mathlib.Text.{◌==◌}
use text.Mathlib.TextEquality.{eq_iff}
use connect_hub.Base.Tests.{if◌then◌else◌}

pub eq_sym : (a b : String) → (a == b) ≡ (b == a)
eq_sym a b = ground (arith, eq_iff a b, eq_iff b a)

pub ne→eq-false : (a b : String) → a ≢ b → (a == b) ≡ false
ne→eq-false a b h = ground (arith, eq_iff a b)

-- The code points of a text.
abbrev pub codes : String → List ℕ
codes String.[] = []
codes (String.◌∷◌ c s) = code c ∷ codes s

-- A text is false in a test when it is empty or not there.
abbrev pub is_truthy : Option String → Bool
is_truthy none = false
is_truthy (some s) = if s == "" then false else true

-- One where the two are equal, else nothing.
unfoldable pub hit : String → String → ℕ
hit x a = if x == a then 1 else 0

pub hit_self : (a : String) → hit a a ≡ 1
unfolding hit
hit_self a = ground (arith, eq_iff a a)

pub hit_ne : (x a : String) → x ≢ a → hit x a ≡ 0
unfolding hit
hit_ne x a h = ground (arith, eq_iff x a)

pub hit_le : (x a : String) → hit x a ≤ 1
unfolding hit
hit_le x a = ground arith

pub hit-true : (x a : String) → (x == a) ≡ true → hit x a ≡ 1
unfolding hit
hit-true x a h = rw h

pub hit-false : (x a : String) → (x == a) ≡ false → hit x a ≡ 0
unfolding hit
hit-false x a h = rw h

pub hit_zero : (x a : String) → hit x a ≡ 0 → (x == a) ≡ false
unfolding hit
hit_zero x a h = ground arith

abbrev pub occurs : String → List String → ℕ
occurs a [] = 0
occurs a (x ∷ xs) = hit x a + occurs a xs

pub occurs-append :
    (a : String) (xs ys : List String) → occurs a (xs ++ ys) ≡ occurs a xs + occurs a ys
occurs-append a [] ys = omega arith
occurs-append a (x ∷ xs) ys = omega (arith, occurs-append a xs ys)

-- No text stands twice in the list.
abbrev pub Distinct : List String → Type 0
Distinct xs = (a : String) → occurs a xs ≤ 1
