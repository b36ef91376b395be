-- ===== src/CommandHistory/Ranking/Last.antt =====
-- src/state/commandHistoryStore.ts: where a command was run last (`lastIndex`).
use connect_hub.Base.{
  ℕ, suc, ◌≡◌, refl, String, false, List, [], ◌∷◌, ◌++◌, Option, none, some, length, ◌==◌,
  if◌then◌else◌, or_else, maybe, eq_iff, arith,
}

-- The position of the last of the commands that are this one.
abbrev pub last_at : String → List String → Option ℕ
last_at c [] = none
last_at c (x ∷ xs) =
    or_else (maybe none (λ (n : ℕ). some (suc n)) (last_at c xs)) (if x == c then some 0 else none)

pub eq_swap : (x y : String) → (x == y) ≡ (y == x)
eq_swap x y = ground (arith, eq_iff x y, eq_iff y x)

-- One more command is the last of its kind, and changes no other's last position.
pub last_at-concat_self :
    (seen : List String) (x : String) → last_at x (seen ++ (x ∷ [])) ≡ some (length seen)
last_at-concat_self [] x = rw ((eq_iff x x).1 refl) refl
last_at-concat_self (y ∷ seen) x = rw (last_at-concat_self seen x) refl

pub last_at-concat_other :
    (seen : List String) (x c : String)
    → (x == c) ≡ false
    → last_at c (seen ++ (x ∷ [])) ≡ last_at c seen
last_at-concat_other [] x c e = rw e refl
last_at-concat_other (y ∷ seen) x c e = rw (last_at-concat_other seen x c e) refl
