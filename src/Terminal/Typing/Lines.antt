-- ===== src/Terminal/Typing/Lines.antt =====
-- src/components/terminal/TerminalView.tsx: the lines that are recorded.
use connect_hub.Base.{
  ℕ, ◌≤◌, ◌≡◌, refl, sym, ap, ◌∙◌, true, false, ◌||◌, List, [], ◌∷◌, ◌++◌, append_assoc, append-nil,
  if◌then◌else◌, eqb, arith, All, Bool-cases, inl, inr,
}
use connect_hub.Terminal.Typing.{
  Typed, units, trim, submit, type_char, type_chars, on_data, is_escape, is_empty, on_output,
}

-- A character that is shown as itself.
abbrev pub IsPrintable : ℕ → Type 0
IsPrintable c = (32 ≤ c) × (eqb c 127 ≡ false)

abbrev pub all_units : List ℕ → List ℕ
all_units [] = []
all_units (c ∷ cs) = units c ++ all_units cs

type_printable :
    (s : Typed) (c : ℕ)
    → IsPrintable c
    → type_char s c ≡ (record s { line_buffer = s.line_buffer ++ units c }, [])
unfolding type_char
type_printable s c (shown, kept) = ground (arith, shown, kept)

type_line :
    (s : Typed) (cs : List ℕ)
    → All IsPrintable cs
    → type_chars s cs ≡ (record s { line_buffer = s.line_buffer ++ all_units cs }, [])
unfolding type_chars
type_line s [] h = ap (λ l. (record s { line_buffer = l }, [])) (sym (append-nil s.line_buffer))
type_line s (c ∷ cs) (h, hs) =
    rw (type_printable s c h, type_line (record s { line_buffer = s.line_buffer ++ units c }) cs hs)
      (ap (λ l. (record s { line_buffer = l }, []))
        (append_assoc s.line_buffer (units c) (all_units cs)))

-- Typing in two pieces is typing at once.
type_chars-append :
    (s : Typed) (xs ys : List ℕ)
    → type_chars s (xs ++ ys) ≡ (
      (type_chars (type_chars s xs).0 ys).0,
      (type_chars s xs).1 ++ (type_chars (type_chars s xs).0 ys).1,
    )
unfolding type_chars
type_chars-append s [] ys = refl
type_chars-append s (x ∷ xs) ys =
    let now = type_char s x in
    rw (type_chars-append now.0 xs ys) (
      ap (λ l. ((type_chars (type_chars now.0 xs).0 ys).0, l))
        (sym
          (append_assoc now.1 (type_chars now.0 xs).1 (type_chars (type_chars now.0 xs).0 ys).1)))

type_enter : (s : Typed) → type_chars s (13 ∷ []) ≡ ((submit s).0, (submit s).1)
unfolding type_chars type_char
type_enter s = ap (λ l. ((submit s).0, l)) (append-nil (submit s).1)

printable_no_escape : (cs : List ℕ) → All IsPrintable cs → is_escape (cs ++ (13 ∷ [])) ≡ false
printable_no_escape [] h = refl
printable_no_escape (c ∷ cs) (h, hs) = ground (arith, h)

pub on_data-line :
    (s : Typed) (cs : List ℕ)
    → All IsPrintable cs
    → on_data s (cs ++ (13 ∷ [])) ≡ (
      record s { line_buffer = []; suppress_next_line = false },
      if is_empty (trim (s.line_buffer ++ all_units cs)) || s.suppress_next_line
          then []
          else trim (s.line_buffer ++ all_units cs) ∷ [],
    )
unfolding on_data submit
on_data-line s cs h = rw (
  printable_no_escape cs h,
  type_chars-append s cs (13 ∷ []),
  type_line s cs h,
  type_enter (record s { line_buffer = s.line_buffer ++ all_units cs }),
)

-- Neither a line feed nor a carriage return.
abbrev pub IsWithinLine : ℕ → Type 0
IsWithinLine c = (eqb c 13 ≡ false) × (eqb c 10 ≡ false)

unsubmitted :
    (s : Typed) (c : ℕ)
    → IsWithinLine c
    → ((type_char s c).1 ≡ []) × ((type_char s c).0.suppress_next_line ≡ s.suppress_next_line)
unfolding type_char
unsubmitted s c h = ground (arith, h)

within_line :
    (s : Typed) (cs : List ℕ)
    → All IsWithinLine cs
    → ((type_chars s cs).1 ≡ []) × ((type_chars s cs).0.suppress_next_line ≡ s.suppress_next_line)
unfolding type_chars
within_line s [] h = (refl, refl)
within_line s (c ∷ cs) (h, hs) =
    let (none_now, same) = unsubmitted s c h in
    let (none_later, same') = within_line (type_char s c).0 cs hs in
    (rw (none_now, none_later), same' ∙ same)

submit_suppressed : (s : Typed) → s.suppress_next_line ≡ true → (submit s).1 ≡ []
unfolding submit
submit_suppressed s h = ground (arith, h)

suppressed_line :
    (s : Typed) (cs : List ℕ)
    → s.suppress_next_line ≡ true
    → All IsWithinLine cs
    → (type_chars s (cs ++ (13 ∷ []))).1 ≡ []
suppressed_line s cs asked h =
    let (none_yet, same) = within_line s cs h in
    ap (λ r. r.1) (type_chars-append s cs (13 ∷ []))
    ∙ ap (λ l. l ++ (type_chars (type_chars s cs).0 (13 ∷ [])).1) none_yet
    ∙ ap (λ r. r.1) (type_enter (type_chars s cs).0)
    ∙ submit_suppressed (type_chars s cs).0 (same ∙ asked)

-- Where a piece of output has left the next line to be suppressed, what is typed up to the next
-- carriage return, in one piece and without a line feed or carriage return in it, records
-- nothing.
pub secret_unrecorded :
    (s : Typed) (text cs : List ℕ)
    → (on_output s text).suppress_next_line ≡ true
    → All IsWithinLine cs
    → (on_data (on_output s text) (cs ++ (13 ∷ []))).1 ≡ []
unfolding on_data
secret_unrecorded s text cs asked h = elim (Bool-cases (is_escape (cs ++ (13 ∷ [])))) [
  | inl escape ↦ rw escape
  | inr plain ↦ rw plain (suppressed_line (on_output s text) cs asked h)
]

pub on_data-append :
    (s : Typed) (xs ys : List ℕ)
    → is_escape xs ≡ false
    → is_escape ys ≡ false
    → on_data s (xs ++ ys)
      ≡ ((on_data (on_data s xs).0 ys).0, (on_data s xs).1 ++ (on_data (on_data s xs).0 ys).1)
unfolding on_data
on_data-append s [] ys p q = rw q
on_data-append s (x ∷ xs) ys p q = rw (p, q) (type_chars-append s (x ∷ xs) ys)
