-- ===== src/Client/Words.antt =====
-- What the remote shell reads of the command (`shell_quote`, `ssh_command`,
-- crates/latte-work-client/src/lib.rs).
use Prim.Native.Char.{Char, code}
use text.Mathlib.TextLemmas.{append-nil, cons-append, nil-append, append_assoc}
use text.Mathlib.TextEquality.{Char-path}
use latte_work.Common.{
  String, concat, Bool, List, [], ◌∷◌, Option, none, some, eqb, if◌then◌else◌, any, ◌≡◌, refl, ap,
  ◌∙◌, inl, inr, Bool-cases, arith,
}
use latte_work.Client.Shell.{quoted_body, shell_quote}

-- How a POSIX shell splits a simple command into words: between words, in one, in single quotes, or
-- after a backslash.
pub data Mode : Type 0 where
  between bare quoted escaped : Mode

-- The character in front of the first word.
abbrev pub push : Char → Option (List String) → Option (List String)
push c none = none
push c (some []) = none
push c (some (w ∷ ws)) = some (String.◌∷◌ c w ∷ ws)

abbrev pub next_word : Option (List String) → Option (List String)
next_word none = none
next_word (some ws) = some ("" ∷ ws)

-- Outside of quotes, other characters with a meaning end the reading: newline, `;&|<>()$` and the rest.
abbrev pub is_special : Char → Bool
is_special c =
    any (λ n. eqb (code c) n)
      (10 ∷ b'"' ∷ b'#' ∷ b'$' ∷ b'&' ∷ b'(' ∷ b')' ∷ b'*' ∷ b';' ∷ b'<' ∷ b'=' ∷ b'>' ∷ b'?' ∷ b'['
        ∷ b'`' ∷ b'|' ∷ b'~' ∷ [])

-- The words of a text, of which the first goes on where a word has begun.
unfoldable pub scan : Mode → String → Option (List String)
scan between String.[] = some []
scan bare String.[] = some ("" ∷ [])
scan quoted String.[] = none
scan escaped String.[] = none
scan between (String.◌∷◌ c s) =
    let b = scan between s in
    let w = scan bare s in
    let q = scan quoted s in
    let e = scan escaped s in
    if eqb (code c) b' '
    then b
    else if eqb (code c) b'\''
    then q
    else if eqb (code c) 92
    then e
    else if is_special c
    then none
    else push c w
scan bare (String.◌∷◌ c s) =
    let b = scan between s in
    let w = scan bare s in
    let q = scan quoted s in
    let e = scan escaped s in
    if eqb (code c) b' '
    then next_word b
    else if eqb (code c) b'\''
    then q
    else if eqb (code c) 92
    then e
    else if is_special c
    then none
    else push c w
scan quoted (String.◌∷◌ c s) =
    let w = scan bare s in let q = scan quoted s in if eqb (code c) b'\'' then w else push c q
scan escaped (String.◌∷◌ c s) = push c (scan bare s)

-- The words with a text in front of the first.
unfoldable pub prepend : String → Option (List String) → Option (List String)
prepend String.[] r = r
prepend (String.◌∷◌ c s) r = push c (prepend s r)

-- The text of a quote in a quoted text, character by character.
escaped_quote : String → String
escaped_quote s = String.◌∷◌ "'" (String.◌∷◌ "\\" (String.◌∷◌ "'" (String.◌∷◌ "'" s)))

pub append-one : (c : Char) (s : String) → concat (String.◌∷◌ c String.[]) s ≡ String.◌∷◌ c s
append-one c s = cons-append c String.[] s ∙ ap (String.◌∷◌ c) (nil-append s)

append-escaped_quote : (s : String) → concat "'\\''" s ≡ escaped_quote s
unfolding escaped_quote
append-escaped_quote s =
    cons-append "'" "\\''" s
    ∙ ap (String.◌∷◌ "'") (
        cons-append "\\" "''" s
        ∙ ap (String.◌∷◌ "\\") (cons-append "'" "'" s ∙ ap (String.◌∷◌ "'") (append-one "'" s)))

scan-quoted_body :
    (s rest : String)
    → scan quoted (concat (quoted_body s) (concat "'" rest)) ≡ prepend s (scan bare rest)
unfolding scan quoted_body prepend escaped_quote
scan-quoted_body String.[] rest = rw (nil-append (concat "'" rest), append-one "'" rest) refl
scan-quoted_body (String.◌∷◌ c s) rest = elim (Bool-cases (eqb (code c) b'\'')) [
  | inr e ↦
      rw (e, cons-append c (quoted_body s) (concat "'" rest), e)
        (ap (push c) (scan-quoted_body s rest))
  | inl e ↦
      let same : c ≡ "'" = Char-path c "'" (ground arith) in
      rw
        (
          e,
          append_assoc "'\\''" (quoted_body s) (concat "'" rest),
          append-escaped_quote (concat (quoted_body s) (concat "'" rest)),
          same,
        )
        (ap (push "'") (scan-quoted_body s rest))
]

-- A text in front of the first word.
pub prepend-some :
    (s t : String) (ws : List String) → prepend s (some (t ∷ ws)) ≡ some (concat s t ∷ ws)
unfolding prepend
prepend-some String.[] t ws = rw (nil-append t) refl
prepend-some (String.◌∷◌ c s) t ws = rw (prepend-some s t ws, cons-append c s t) refl

-- A quoted text is one word, whatever it holds.
pub scan-quote :
    (s rest : String) (ws : List String)
    → scan bare rest ≡ some ("" ∷ ws)
    → scan between (concat (shell_quote s) rest) ≡ some (s ∷ ws)
unfolding shell_quote scan
scan-quote s rest ws h =
    let shape : concat (concat "'" (concat (quoted_body s) "'")) rest
        ≡ String.◌∷◌ "'" (concat (quoted_body s) (concat "'" rest)) =
      append_assoc "'" (concat (quoted_body s) "'") rest
      ∙ append-one "'" (concat (concat (quoted_body s) "'") rest)
      ∙ ap (String.◌∷◌ "'") (append_assoc (quoted_body s) "'" rest) in
    let word : prepend s (some ("" ∷ ws)) ≡ some (s ∷ ws) =
      prepend-some s "" ws ∙ ap (λ w. some (w ∷ ws)) (append-nil s) in
    rw (shape, scan-quoted_body s rest, h) word
