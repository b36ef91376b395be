-- ===== src/Terminal/Typing.antt =====
-- What is typed: the line that is tracked for the command history (`onData` and the data branch of
-- the session's events). Text is a list of UTF-16 units; a chunk of data comes as characters, by code
-- points.
pub mod Lines
use connect_hub.Base.{
  ℕ, ◌+◌, ◌-◌, ◌*◌, ◌/◌, ◌≡◌, Bool, true, false, not, ◌&&◌, ◌||◌, List, [], ◌∷◌, ◌++◌, length, drop,
  if◌then◌else◌, eqb, leb, ltb, Option, none, some, head?, maybe, codes,
}

pub record Typed : Type 0 where
  pub line_buffer : List ℕ
  pub output_tail : List ℕ
  pub suppress_next_line : Bool

abbrev pub nothing_typed : Typed
nothing_typed = record { line_buffer = []; output_tail = []; suppress_next_line = false }

-- The units of a character.
unfoldable pub units : ℕ → List ℕ
units c =
    if ltb c 65536
    then c ∷ []
    else (55296 + (c - 65536) / 1024) ∷ (56320 + ((c - 65536) - (c - 65536) / 1024 * 1024)) ∷ []

-- White space and line terminators, as `trim` takes them.
unfoldable pub is_space : ℕ → Bool
is_space c =
    (leb 9 c && leb c 13)
    || (eqb c 32
        || (eqb c 160
            || (eqb c 5760
                || ((leb 8192 c && leb c 8202)
                    || (eqb c 8232
                        || (eqb c 8233
                            || (eqb c 8239 || (eqb c 8287 || (eqb c 12288 || eqb c 65279)))))))))

trim_start : List ℕ → List ℕ
trim_start [] = []
trim_start (c ∷ cs) = if is_space c then trim_start cs else c ∷ cs

abbrev is_empty : List ℕ → Bool
is_empty [] = true
is_empty (c ∷ cs) = false

trim_end : List ℕ → List ℕ
trim_end [] = []
trim_end (c ∷ cs) = let rest = trim_end cs in if is_space c && is_empty rest then [] else c ∷ rest

unfoldable pub trim : List ℕ → List ℕ
unfolding trim_start trim_end
trim cs = trim_start (trim_end cs)

-- `s.slice(0, -1)`
unfoldable pub slice_last : List ℕ → List ℕ
slice_last [] = []
slice_last (c ∷ []) = []
slice_last (c ∷ d ∷ cs) = c ∷ slice_last (d ∷ cs)

-- A line feed or a carriage return: the new state, and the lines recorded.
unfoldable pub submit : Typed → Typed × List (List ℕ)
unfolding trim
submit s =
    let line = trim s.line_buffer in
    (
      record s { line_buffer = []; suppress_next_line = false },
      if is_empty line || s.suppress_next_line then [] else line ∷ [],
    )

-- One round of the loop over the characters.
unfoldable pub type_char : Typed → ℕ → Typed × List (List ℕ)
unfolding submit slice_last units
type_char s ch =
    if eqb ch 13 || eqb ch 10
    then submit s
    else if eqb ch 127 || eqb ch 8
    then (record s { line_buffer = slice_last s.line_buffer }, [])
    else if eqb ch 3 || eqb ch 21
    then (record s { line_buffer = [] }, [])
    else if leb 32 ch
    then (record s { line_buffer = s.line_buffer ++ units ch }, [])
    else (s, [])

unfoldable pub type_chars : Typed → List ℕ → Typed × List (List ℕ)
unfolding type_char
type_chars s [] = (s, [])
type_chars s (ch ∷ chunk) =
    let now = type_char s ch in let rest = type_chars now.0 chunk in (rest.0, now.1 ++ rest.1)

abbrev pub is_escape : List ℕ → Bool
is_escape chunk = maybe false (λ c. eqb c 27) (head? chunk)

unfoldable pub on_data : Typed → List ℕ → Typed × List (List ℕ)
unfolding type_chars
on_data s chunk = if is_escape chunk then (s, []) else type_chars s chunk

-- A letter of ASCII in lower case, which is what a pattern with the flag `i` compares.
abbrev lower : ℕ → ℕ
lower c = if leb 65 c && leb c 90 then c + 32 else c

starts_with : List ℕ → List ℕ → Bool
starts_with [] text = true
starts_with (p ∷ ps) [] = false
starts_with (p ∷ ps) (c ∷ text) = eqb p (lower c) && starts_with ps text

contains : List ℕ → List ℕ → Bool
unfolding starts_with
contains pattern [] = starts_with pattern []
contains pattern (c ∷ text) = starts_with pattern (c ∷ text) || contains pattern text

-- `SECRET_PROMPT_RE.test`
unfoldable pub is_secret_prompt : List ℕ → Bool
unfolding contains
is_secret_prompt text = contains (codes "password") text || contains (codes "passphrase") text

-- Output of the remote.
unfoldable pub on_output : Typed → List ℕ → Typed
unfolding is_secret_prompt
on_output s text =
    let seen = s.output_tail ++ text in
    let tail = drop (length seen - 256) seen in
    if is_secret_prompt tail
    then record s { output_tail = []; suppress_next_line = true }
    else record s { output_tail = tail }
