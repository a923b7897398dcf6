-- ===== src/Attachments/Retry.antt =====
-- A chunk that is sent again (`chunk`, crates/latte-work-server/src/attachments.rs).
use latte_work.Common.{
  ℕ, ◌+◌, String, true, false, List, ◌≡◌, refl, sym, subst, leb→gt, inl, inr, Bool-cases,
  Option-cases, some, lookup, adjust, eqb, leb, length, lookup-adjust, arith, ok, err,
}
use latte_work.Attachments.{
  Attachments, Pending, Write, all_written, failed_after, chunk, invalid_chunk, is_invalid_chunk,
  extend, with_pending,
}

again_invalid :
    (p : Pending) (offset : ℕ) (bytes : List ℕ) (now later : ℕ)
    → is_invalid_chunk p offset bytes now ≡ false
    → is_invalid_chunk (extend bytes now p) offset bytes later ≡ true
again_invalid p offset bytes now later valid =
    let some_bytes : leb (length bytes) 0 ≡ false = ground arith in
    let at_end : eqb offset p.written ≡ true = ground arith in
    let more = leb→gt (length bytes) 0 some_bytes in
    let passed : eqb offset (p.written + length bytes) ≡ false = ground arith in ground arith

accepted :
    (s : Attachments) (id : String) (p : Pending) (offset : ℕ) (bytes : List ℕ) (write : Write)
    (now : ℕ)
    → lookup id s.pending ≡ some p
    → is_invalid_chunk p offset bytes now ≡ false
    → (chunk s id offset bytes write now).1 ≡ ok tt
    → (chunk s id offset bytes write now).0
      ≡ with_pending s (adjust id (extend bytes now) s.pending)
unfolding chunk
accepted s id p offset bytes all_written now e valid done = rw (chunk, e, valid) refl
accepted s id p offset bytes (failed_after n) now e valid done =
    absurd (cc (rw (chunk, e, valid) at done))

refused :
    (s : Attachments) (id : String) (p : Pending) (offset : ℕ) (bytes : List ℕ) (write : Write)
    (now : ℕ)
    → lookup id s.pending ≡ some p
    → is_invalid_chunk p offset bytes now ≡ true
    → chunk s id offset bytes write now ≡ (s, err invalid_chunk)
unfolding chunk
refused s id p offset bytes write now e bad = rw (chunk, e, bad) refl

-- A chunk that was accepted is refused when it is sent again with the same offset, at any time and
-- however the disk writes, and the second sending changes nothing.
pub chunk-again :
    (s : Attachments) (id : String) (offset : ℕ) (bytes : List ℕ) (write write' : Write)
    (now later : ℕ)
    → (chunk s id offset bytes write now).1 ≡ ok tt
    → chunk (chunk s id offset bytes write now).0 id offset bytes write' later
      ≡ ((chunk s id offset bytes write now).0, err invalid_chunk)
unfolding chunk
chunk-again s id offset bytes write write' now later done =
    elim (Option-cases (lookup id s.pending)) [
      | inl e ↦ absurd (cc (rw (chunk, e) at done))
      | inr (p, e) ↦ elim (Bool-cases (is_invalid_chunk p offset bytes now)) [
        | inl bad ↦ absurd (cc (rw (chunk, e, bad) at done))
        | inr valid ↦
            let same = accepted s id p offset bytes write now e valid done in
            let s' = with_pending s (adjust id (extend bytes now) s.pending) in
            let there = lookup-adjust id (extend bytes now) p s.pending e in
            let no =
              refused s' id (extend bytes now p) offset bytes write' later there
                (again_invalid p offset bytes now later valid) in
            subst (λ t. chunk t id offset bytes write' later ≡ (t, err invalid_chunk)) (sym same) no
      ]
    ]
