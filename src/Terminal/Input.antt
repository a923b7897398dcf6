-- ===== src/Terminal/Input.antt =====
-- What reaches a terminal of an input (the writing thread of `Terminals::create`,
-- crates/latte-work-server/src/terminal.rs).
use latte_work.Common.{
  ℕ, Bool, true, false, List, [], ◌∷◌, ◌++◌, ◌≡◌, refl, ap, ◌∙◌, inl, inr, Bool-cases, take, drop,
  take-drop, append_assoc, eqb, Result, ok, err,
}
use latte_work.Terminal.Process.{
  WriteOutcome, wrote, write_again, write_refused, late_or_stopped, InputError, write_input,
}

abbrev pub succeeded : Result InputError (Unit {0}) → Bool
succeeded (ok u) = true
succeeded (err e) = false

abbrev pub is_done : List ℕ → Bool
is_done [] = true
is_done (b ∷ bs) = false

-- Whatever the writes to the terminal give, the bytes that reach it are the first part of the input,
-- in order and each once, and the input succeeds exactly when no byte is left.
pub write_input-prefix :
    (outcomes : List WriteOutcome) (input : List ℕ)
    → (rest : List ℕ) × ((write_input outcomes input).0 ++ rest ≡ input)
      × (succeeded (write_input outcomes input).1 ≡ is_done rest)
unfolding write_input
write_input-prefix os [] = ([], refl, refl)
write_input-prefix [] (b ∷ bs) = (b ∷ bs, refl, refl)
write_input-prefix (late_or_stopped ∷ os) (b ∷ bs) = (b ∷ bs, refl, refl)
write_input-prefix (write_refused ∷ os) (b ∷ bs) = (b ∷ bs, refl, refl)
write_input-prefix (write_again ∷ os) (b ∷ bs) = write_input-prefix os (b ∷ bs)
write_input-prefix (wrote n ∷ os) (b ∷ bs) = elim (Bool-cases (eqb n 0)) [
  | inl e ↦ rw e (b ∷ bs, refl, refl)
  | inr e ↦
      let (rest, split, done) = write_input-prefix os (drop n (b ∷ bs)) in
      let whole =
        append_assoc (take n (b ∷ bs)) (write_input os (drop n (b ∷ bs))).0 rest
        ∙ ap (λ r. take n (b ∷ bs) ++ r) split
        ∙ take-drop n (b ∷ bs) in
      rw e (rest, whole, done)
]
