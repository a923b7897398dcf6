-- ===== src/Terminal/Follow.antt =====
-- A client that reads on until there is no more has the rest of the output (`Output::read`,
-- crates/latte-work-server/src/terminal.rs).
use latte_work.Common.{
  ℕ, zero, suc, ◌+◌, ◌-◌, ◌*◌, ◌^◌, ◌≤◌, ◌<◌, max, true, false, List, [], ◌++◌, ◌≡◌, refl, ◌∙◌, inl,
  inr, Bool-cases, arith, ltb→lt, ltb→ge, length, take, take_all, drop, length-drop, length-take,
  drop-drop, take-drop, if◌then◌else◌,
}
use latte_work.Terminal.Output.{empty_output, Output, output_limit, read_limit, read_from}
use latte_work.Terminal.Stream.{
  append_all, joined, printed-Keeps, Keeps, read_from-Keeps, slice_from,
}

-- A client reads on from where a slice ended, until there is no more.
unfoldable pub follow : ℕ → Output → ℕ → List ℕ
follow zero o after = []
follow (suc fuel) o after =
    let rest = follow fuel o (read_from o after).next in
    if (read_from o after).has_more
    then (read_from o after).bytes ++ rest
    else (read_from o after).bytes

-- The place from which a cursor reads.
abbrev pub start : List ℕ → ℕ → ℕ
start stream after = max after (length stream - output_limit)

slice_last :
    (stream : List ℕ) (after : ℕ)
    → after ≤ length stream
    → (slice_from stream after).has_more ≡ false
    → (slice_from stream after).bytes ≡ drop (start stream after) stream
unfolding slice_from
slice_last stream after h last =
    let size = length-take read_limit (drop (start stream after) stream) in
    let rest = length-drop (start stream after) stream in
    let whole = ltb→ge _ _ last in
    take_all read_limit (drop (start stream after) stream) (omega arith)

slice_full :
    (stream : List ℕ) (after : ℕ)
    → (slice_from stream after).has_more ≡ true
    → ((slice_from stream after).next ≡ start stream after + read_limit)
      × ((slice_from stream after).next < length stream)
unfolding slice_from
slice_full stream after more =
    let size = length-take read_limit (drop (start stream after) stream) in
    let rest = length-drop (start stream after) stream in
    let below = ltb→lt _ _ more in (omega arith, omega arith)

slice_bytes :
    (stream : List ℕ) (after : ℕ)
    → (slice_from stream after).bytes ≡ take read_limit (drop (start stream after) stream)
unfolding slice_from
slice_bytes stream after = refl

module _ (o : Output) (stream : List ℕ) (small : length stream ≤ 2 ^ 53)
    (kept : Keeps o stream) where
  follow_last :
      (n after : ℕ)
      → after ≤ length stream
      → (slice_from stream after).has_more ≡ false
      → follow (suc n) o after ≡ drop (start stream after) stream
  unfolding follow
  follow_last n after h last =
      rw (read_from-Keeps o stream after small kept h, last) (slice_last stream after h last)

  follow_more :
      (n after : ℕ)
      → after ≤ length stream
      → (slice_from stream after).has_more ≡ true
      → follow (suc n) o after ≡ (
          take read_limit (drop (start stream after) stream)
          ++ follow n o (start stream after + read_limit))
  unfolding follow
  follow_more n after h more =
      rw
        (
          read_from-Keeps o stream after small kept h,
          more,
          slice_bytes stream after,
          (slice_full stream after more).0,
        )
        refl

  pub follow_enough :
      (n after : ℕ)
      → after ≤ length stream
      → length stream ≤ start stream after + suc n * read_limit
      → follow (suc n) o after ≡ drop (start stream after) stream
  follow_enough zero after h enough = elim (Bool-cases ((slice_from stream after).has_more)) [
    | inr last ↦ follow_last 0 after h last
    | inl more ↦ let full = slice_full stream after more in absurd (omega arith)
  ]
  follow_enough (suc n) after h enough = elim (Bool-cases ((slice_from stream after).has_more)) [
    | inr last ↦ follow_last (suc n) after h last
    | inl more ↦
        let (full, below) = slice_full stream after more in
        let next = start stream after + read_limit in
        let ahead : start stream next ≡ next = omega arith in
        let rest = follow_enough n next (omega arith) (omega arith) in
        follow_more (suc n) after h more
        ∙ rw (rest, ahead, ← drop-drop read_limit (start stream after) stream)
            (take-drop read_limit _)
  ]

-- For chunks of no more than 2^53 bytes together and a cursor not past them, sixteen reads, each from
-- where the last one ended and until one says that there is no more, return all bytes from the cursor
-- on, or the whole last mebibyte if the cursor is before it.
pub reads_complete :
    (chunks : List (List ℕ)) (after : ℕ)
    → length (joined chunks) ≤ 2 ^ 53
    → after ≤ length (joined chunks)
    → follow 16 (append_all empty_output chunks) after
      ≡ drop (max after (length (joined chunks) - output_limit)) (joined chunks)
reads_complete chunks after small h =
    follow_enough (append_all empty_output chunks) (joined chunks) small
      (printed-Keeps chunks (omega arith)) 15 after h (omega arith)
