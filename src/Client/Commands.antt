-- ===== src/Client/Commands.antt =====
-- The command for the remote shell, read back (`remote_command`,
-- crates/latte-work-client/src/lib.rs).
use Prim.Native.Char.{Char, code}
use text.Mathlib.TextLemmas.{append-nil, cons-append, nil-append, append_assoc}
use latte_work.Common.{
  String, concat, Bool, true, false, not, ◌&&◌, ◌||◌, List, [], ◌∷◌, some, eqb, if◌then◌else◌,
  is_empty, ◌≡◌, refl, sym, ap, ◌∙◌, inl, inr, Bool-cases,
}
use latte_work.Client.Shell.{shell_quote, remote_command, discover}
use latte_work.Client.Words.{
  between, bare, scan, push, is_special, prepend, prepend-some, scan-quote, append-one,
}

abbrev is_plain : Char → Bool
is_plain c = not (eqb (code c) b' ' || eqb (code c) b'\'' || eqb (code c) 92 || is_special c)

plain_parts :
    (a b c d : Bool)
    → not (a || b || c || d) ≡ true
    → (a ≡ false) × (b ≡ false) × (c ≡ false) × (d ≡ false)
plain_parts false false false false h = (refl, refl, refl, refl)
plain_parts true b c d h = absurd (cc h)
plain_parts false true c d h = absurd (cc h)
plain_parts false false true d h = absurd (cc h)
plain_parts false false false true h = absurd (cc h)

and_parts : (a b : Bool) → (a && b) ≡ true → (a ≡ true) × (b ≡ true)
and_parts true b h = (refl, h)
and_parts false b h = absurd (cc h)

push_plain :
    (c : Char) (s : String)
    → is_plain c ≡ true
    → (scan bare (String.◌∷◌ c s) ≡ push c (scan bare s))
      × (scan between (String.◌∷◌ c s) ≡ push c (scan bare s))
unfolding scan
push_plain c s plain =
    let (no_space, no_quote, no_slash, no_meaning) =
      plain_parts (eqb (code c) b' ') (eqb (code c) b'\'') (eqb (code c) 92) (is_special c) plain in
    (
      rw (no_space, no_quote, no_slash, no_meaning) refl,
      rw (no_space, no_quote, no_slash, no_meaning) refl,
    )

unfoldable all_plain : String → Bool
all_plain String.[] = true
all_plain (String.◌∷◌ c s) = is_plain c && all_plain s

scan-plain :
    (w rest : String) → all_plain w ≡ true → scan bare (concat w rest) ≡ prepend w (scan bare rest)
unfolding prepend all_plain
scan-plain String.[] rest h = ap (scan bare) (nil-append rest)
scan-plain (String.◌∷◌ c w) rest h =
    let (here, later) = and_parts (is_plain c) (all_plain w) h in
    ap (scan bare) (cons-append c w rest)
    ∙ (push_plain c (concat w rest) here).0
    ∙ ap (push c) (scan-plain w rest later)

-- A plain word, a space and the rest.
scan-word :
    (c : Char) (w rest : String) (ws : List String)
    → all_plain (String.◌∷◌ c w) ≡ true
    → scan between rest ≡ some ws
    → scan between (concat (String.◌∷◌ c w) (concat " " rest)) ≡ some (String.◌∷◌ c w ∷ ws)
unfolding scan prepend all_plain
scan-word c w rest ws plain h =
    let (here, later) = and_parts (is_plain c) (all_plain w) plain in
    let gap : scan bare (String.◌∷◌ " " rest) ≡ some ("" ∷ ws) = rw h refl in
    let word : push c (prepend w (some ("" ∷ ws))) ≡ some (String.◌∷◌ c w ∷ ws) =
      ap (push c) (prepend-some w "" ws ∙ ap (λ t. some (t ∷ ws)) (append-nil w)) in
    ap (λ t. scan between t) (cons-append c w (concat " " rest))
    ∙ (push_plain c (concat w (concat " " rest)) here).1
    ∙ ap (push c) (
        scan-plain w (concat " " rest) later
        ∙ ap (λ t. prepend w (scan bare t)) (append-one " " rest)
        ∙ ap (prepend w) gap)
    ∙ word

scan_end : scan bare "" ≡ some ("" ∷ [])
unfolding scan
scan_end = refl

scan_connect : scan bare " connect" ≡ some ("" ∷ "connect" ∷ [])
unfolding scan
scan_connect = refl

-- `exec` and what follows.
scan_exec :
    (rest : String) (ws : List String)
    → scan between rest ≡ some ws
    → scan between (concat "exec " rest) ≡ some ("exec" ∷ ws)
unfolding all_plain
scan_exec rest ws h =
    ap (scan between) (append_assoc "exec" " " rest) ∙ scan-word "e" "xec" rest ws refl h

scan_sh :
    (rest : String) (ws : List String)
    → scan between rest ≡ some ws
    → scan between (concat "/bin/sh -c " rest) ≡ some ("/bin/sh" ∷ "-c" ∷ ws)
unfolding all_plain
scan_sh rest ws h =
    let option =
      ap (scan between) (append_assoc "-c" " " rest) ∙ scan-word "-" "c" rest ws refl h in
    ap (scan between)
      (append_assoc "/bin/sh" " -c " rest ∙ ap (concat "/bin/sh") (append_assoc " " "-c " rest))
    ∙ scan-word "/" "bin/sh" (concat "-c " rest) ("-c" ∷ ws) refl option

-- The words that the remote shell is to run.
abbrev pub remote_words : String → List String
remote_words binary =
    if is_empty binary
    then "exec" ∷ "/bin/sh" ∷ "-c" ∷ discover ∷ []
    else "exec" ∷ binary ∷ "connect" ∷ []

-- Whatever the path of the server is, the remote shell reads the command as the words `exec`, the
-- path and `connect`, the path being one word as it is; without a path, as `exec`, `/bin/sh`, `-c` and
-- the script that looks for the server.
pub remote_command-words :
    (binary : String) → scan between (remote_command binary) ≡ some (remote_words binary)
unfolding remote_command
remote_command-words binary = elim (Bool-cases (is_empty binary)) [
  | inr e ↦ rw e (
      scan_exec (concat (shell_quote binary) " connect") (binary ∷ "connect" ∷ [])
        (scan-quote binary " connect" ("connect" ∷ []) scan_connect))
  | inl e ↦
      let script : scan between (shell_quote discover) ≡ some (discover ∷ []) =
        ap (scan between) (sym (append-nil (shell_quote discover)))
        ∙ scan-quote discover "" [] scan_end in
      let whole =
        scan_exec (concat "/bin/sh -c " (shell_quote discover)) ("/bin/sh" ∷ "-c" ∷ discover ∷ [])
          (scan_sh (shell_quote discover) (discover ∷ []) script) in
      rw e (ap (scan between) (append_assoc "exec " "/bin/sh -c " (shell_quote discover)) ∙ whole)
]
