-- ===== src/Terminal/Stream.antt =====
-- The kept output as a window on everything that a terminal ever printed (`Output::append`,
-- `Output::read`, crates/latte-work-server/src/terminal.rs).
use latte_work.Common.{
  append-nil, append_assoc, ℕ, ◌+◌, ◌-◌, ◌^◌, ◌≤◌, ◌<◌, max, true, List, [], ◌∷◌, ◌++◌, ◌≡◌, refl,
  sym, ap, ◌∙◌, inl, inr, Bool-cases, arith, ltb, leb, ltb→ge, length, length-append, take, drop,
  length-drop, length-take, drop-drop, drop-append, Result, ok, err, if◌then◌else◌,
}
use latte_work.Terminal.Output.{
  OutputError, invalid_cursor, infinite_or_nan, negative, fractional, Output, empty_output,
  output_limit, read_limit, Cursor, whole, append, as_f64, first_kept, read, read_from, Slice,
}

-- The output after the chunks that the reader of the terminal appends.
unfoldable pub append_all : Output → List (List ℕ) → Output
append_all o [] = o
append_all o (c ∷ cs) = append_all (append o c) cs

unfoldable pub joined : List (List ℕ) → List ℕ
joined [] = []
joined (c ∷ cs) = c ++ joined cs

-- What an output is to be when `stream` is all that was printed.
pub record Keeps (o : Output) (stream : List ℕ) : Type 0 where
  pub bytes_Keeps : o.bytes ≡ drop (length stream - output_limit) stream
  pub end_Keeps : o.end ≡ length stream

pub append-Keeps :
    (o : Output) (stream bytes : List ℕ)
    → length (stream ++ bytes) < 2 ^ 64
    → Keeps o stream
    → Keeps (append o bytes) (stream ++ bytes)
unfolding append
append-Keeps o stream bytes small k =
    let sizes = length-append stream bytes in
    let kept : o.bytes ++ bytes ≡ drop (length stream - output_limit) (stream ++ bytes) =
      rw k.bytes_Keeps
        (sym (drop-append (length stream - output_limit) stream bytes (omega arith))) in
    let kept_size = ap length kept in
    let whole_size = length-drop (length stream - output_limit) (stream ++ bytes) in
    record {
      bytes_Keeps =
          ap (drop (length (o.bytes ++ bytes) - output_limit)) kept
          ∙ drop-drop (length (o.bytes ++ bytes) - output_limit) (length stream - output_limit)
              (stream ++ bytes)
          ∙ ap (λ n. drop n (stream ++ bytes)) (omega arith);
      end_Keeps = omega arith;
    }

as_f64_exact : (n : ℕ) → n ≤ 2 ^ 53 → as_f64 n ≡ n
unfolding as_f64
as_f64_exact n h = let fits : leb n (2 ^ 53) ≡ true = ground arith in rw fits refl

first_kept-Keeps :
    (o : Output) (stream : List ℕ) → Keeps o stream → first_kept o ≡ length stream - output_limit
unfolding first_kept
first_kept-Keeps o stream k =
    let size = ap length k.bytes_Keeps in
    let cut = length-drop (length stream - output_limit) stream in
    let end = k.end_Keeps in omega arith

-- The slice that a client gets from a cursor, as a part of the whole stream.
unfoldable pub slice_from : List ℕ → ℕ → Slice
slice_from stream after =
    let offset = max after (length stream - output_limit) in
    let bytes = take read_limit (drop offset stream) in
    record {
      bytes = bytes;
      next = offset + length bytes;
      has_more = ltb (offset + length bytes) (length stream);
      truncated = ltb after (length stream - output_limit);
    }

unfoldable pub specified : List ℕ → Cursor → Result OutputError Slice
unfolding slice_from
specified stream (whole after) =
    if ltb (length stream) after then err invalid_cursor else ok (slice_from stream after)
specified stream cursor = err invalid_cursor

pub read_from-Keeps :
    (o : Output) (stream : List ℕ) (after : ℕ)
    → length stream ≤ 2 ^ 53
    → Keeps o stream
    → after ≤ length stream
    → read_from o after ≡ slice_from stream after
unfolding read_from slice_from
read_from-Keeps o stream after small k h =
    let first = first_kept-Keeps o stream k in
    let window : drop (max after (length stream - output_limit) - (length stream - output_limit))
          o.bytes
        ≡ drop (max after (length stream - output_limit)) stream =
      rw k.bytes_Keeps (
        drop-drop (max after (length stream - output_limit) - (length stream - output_limit))
          (length stream - output_limit) stream
        ∙ ap (λ n. drop n stream) (omega arith)) in
    let taken = length-take read_limit (drop (max after (length stream - output_limit)) stream) in
    let rest = length-drop (max after (length stream - output_limit)) stream in
    let exact =
      as_f64_exact
        (max after (length stream - output_limit)
          + length (take read_limit (drop (max after (length stream - output_limit)) stream)))
        (omega arith) in
    rw (first, window, exact, k.end_Keeps) refl

pub append_all-Keeps :
    (chunks : List (List ℕ)) (o : Output) (stream : List ℕ)
    → length (stream ++ joined chunks) < 2 ^ 64
    → Keeps o stream
    → Keeps (append_all o chunks) (stream ++ joined chunks)
unfolding append_all joined
append_all-Keeps [] o stream small k = rw (append-nil stream) k
append_all-Keeps (c ∷ cs) o stream small k =
    let joint = append_assoc stream c (joined cs) in
    let long : length ((stream ++ c) ++ joined cs) < 2 ^ 64 = rw joint small in
    let sizes = length-append (stream ++ c) (joined cs) in
    rw (← joint) (
      append_all-Keeps cs (append o c) (stream ++ c) long (append-Keeps o stream c (omega arith) k))

-- The output of a new terminal after its chunks is the window on all of them.
pub printed-Keeps :
    (chunks : List (List ℕ))
    → length (joined chunks) < 2 ^ 64
    → Keeps (append_all empty_output chunks) (joined chunks)
printed-Keeps chunks small =
    append_all-Keeps chunks empty_output [] small (record { bytes_Keeps = refl; end_Keeps = refl })

-- After any chunks, as long as they are no more than 2^53 bytes together, `read` refuses exactly the
-- cursors that are not whole numbers up to the number of bytes printed; for the others it returns
-- the bytes of the whole stream from the later of the cursor and the start of its last mebibyte, at
-- most 64 KiB of them, with the place where they end, whether the stream goes on there, and whether
-- bytes after the cursor are lost.
pub read-slices :
    (chunks : List (List ℕ)) (cursor : Cursor)
    → length (joined chunks) ≤ 2 ^ 53
    → read (append_all empty_output chunks) cursor ≡ specified (joined chunks) cursor
unfolding read specified
read-slices chunks (whole after) small =
    let stream = joined chunks in
    let o = append_all empty_output chunks in
    let kept = printed-Keeps chunks (omega arith) in
    elim (Bool-cases (ltb (length stream) after)) [
      | inl past ↦ rw (kept.end_Keeps, as_f64_exact (length stream) small, past) refl
      | inr inside ↦
          rw
            (
              read_from-Keeps o stream after small kept (ltb→ge _ _ inside),
              kept.end_Keeps,
              as_f64_exact (length stream) small,
              inside,
            )
            refl
    ]
read-slices chunks infinite_or_nan small = refl
read-slices chunks negative small = refl
read-slices chunks fractional small = refl
