-- ===== src/FriendlyError.antt =====
-- src/lib/friendlyError.ts: a headline for the errors that are common, with the error's own text.
use Prim.Native.String
use text.Mathlib.TextLemmas.{append-nil, nil-append}
use connect_hub.Base.{
  ℕ, ◌-◌, ◌≡◌, sym, ◌∙◌, String, Bool, true, false, not, ◌&&◌, ◌||◌, List, [], ◌∷◌, codes, length,
  take, drop, any, find, eqb, ltb, maybe, Option-cases, inl, inr,
}

abbrev pub starts_with : List ℕ → List ℕ → Bool
starts_with [] text = true
starts_with (p ∷ ps) [] = false
starts_with (p ∷ ps) (c ∷ text) = eqb p c && starts_with ps text

abbrev equals : List ℕ → List ℕ → Bool
equals [] [] = true
equals (p ∷ ps) (c ∷ text) = eqb p c && equals ps text
equals _ _ = false

-- What `.` does not match.
abbrev is_line_end : ℕ → Bool
is_line_end c = eqb c 10 || (eqb c 13 || (eqb c 8232 || eqb c 8233))

-- The patterns of the rules: `^prefix`, `^prefix.+suffix$` and `^whole$`.
pub data Pattern : Type 0 where
  begins : String → Pattern
  spans : String → String → Pattern
  is_whole : String → Pattern

pub matches : Pattern → List ℕ → Bool
matches (begins prefix) text = starts_with (codes prefix) text
matches (is_whole whole) text = equals (codes whole) text
matches (spans prefix suffix) text =
    let rest = drop (length (codes prefix)) text in
    let size = length rest - length (codes suffix) in
    starts_with (codes prefix) text
    && (ltb (length (codes suffix)) (length rest)
        && (equals (codes suffix) (drop size rest) && not (any is_line_end (take size rest))))

pub record Rule : Type 0 where
  pub test : Pattern
  pub friendly : String

abbrev rule : Pattern → String → Rule
rule test friendly = record { test = test; friendly = friendly }

abbrev pub rules : List Rule
rules =
    rule (begins "connection refused by ")
      "Couldn't connect - the host actively refused the connection. Check the port is correct and something is actually listening there."
    ∷ rule (spans "connection to " " timed out")
        "Connecting timed out. Check the host is reachable (and, if it's behind a VPN, that the VPN is actually connected)."
    ∷ rule (begins "could not resolve hostname ")
        "Couldn't resolve that hostname. Double-check it's spelled correctly."
    ∷ rule (begins "authentication failed:")
        "The server rejected the credentials for this identity. Check the username/password or key, or that this identity is set up for the right account."
    ∷ rule (is_whole "vault is locked") "The vault is locked. Try restarting the app."
    ∷ rule (begins "VPN privilege setup hasn't been run yet")
        "This host's VPN needs a one-time setup step before it can connect - open the VPN tab and run setup."
    ∷ []

unfoldable pub friendly_error : String → String
unfolding matches
friendly_error raw =
    maybe raw (λ (r : Rule). String.◌++◌ (String.◌++◌ r.friendly " (") (String.◌++◌ raw ")"))
      (find (λ (r : Rule). matches r.test (codes raw)) rules)

-- The error's own text is part of what is shown.
pub friendly_error-raw :
    (raw : String) → (p q : String) × (friendly_error raw ≡ String.◌++◌ p (String.◌++◌ raw q))
unfolding friendly_error
friendly_error-raw raw =
    elim (Option-cases (find (λ (r : Rule). matches r.test (codes raw)) rules)) [
      | inl none_fits ↦
          ("", "", rw none_fits (sym (nil-append (String.◌++◌ raw "") ∙ append-nil raw)))
      | inr (r, fits) ↦ (String.◌++◌ r.friendly " (", ")", rw fits)
    ]
