-- ===== src/Tests/Attachments.antt =====
-- Pasted files at concrete inputs.
use latte_work.Common.{
  ℕ, ◌+◌, ◌≤◌, concat, ◌≡◌, refl, true, false, List, [], ◌∷◌, some, ok, err, length, lookup, arith,
  is_empty, any_char, is_control,
}
use latte_work.Attachments.{
  Attachments, begin_upload, admit, drop_expired, is_invalid_name, chunk, finish, all_written,
  failed_after, invalid_chunk, incomplete, used, reserved, max_cache,
}
use latte_work.Attachments.Bounds.{Event, begun, chunked, run, Whole, run-disk}
use latte_work.Attachments.Upload.{send, content, Timely, last_time, upload-roundtrip}
use latte_work.Attachments.Retry.{chunk-again}

abbrev empty_cache : Attachments
empty_cache = record { root = "/cache"; files = []; pending = [] }

abbrev opened : Attachments
opened = (begin_upload empty_cache "a.txt" 3 "u1" true 0).0

admitted : (begin_upload empty_cache "a.txt" 3 "u1" true 0).1 ≡ ok "u1"
unfolding begin_upload drop_expired admit is_invalid_name is_empty any_char is_control
admitted = refl

abbrev parts : List (List ℕ × ℕ)
parts = (1 ∷ 2 ∷ [], 1) ∷ (3 ∷ [], 2) ∷ []

-- After a write that failed in the middle, the same chunk is taken at the same place, and the file
-- that is complete by its count holds the bytes of both.
abbrev torn : Attachments
torn =
    (chunk (chunk opened "u1" 0 (1 ∷ 2 ∷ 3 ∷ []) (failed_after 2) 1).0 "u1" 0 (1 ∷ 2 ∷ 3 ∷ [])
      all_written 2).0

torn_file : lookup "u1-a.txt" (finish torn "u1" true true 3).0.files ≡ some (1 ∷ 2 ∷ 1 ∷ 2 ∷ 3 ∷ [])
unfolding begin_upload drop_expired admit is_invalid_name is_empty any_char is_control chunk finish
torn_file = refl

too_early : (finish opened "u1" true true 3).1 ≡ err incomplete
unfolding begin_upload drop_expired admit is_invalid_name is_empty any_char is_control finish
too_early = refl

upload-roundtrip_example :
    let sent =
      send (begin_upload empty_cache "a.txt" (length (content parts)) "u1" true 0).0 "u1" 0 parts in
    ((finish sent.0 "u1" true true 3).1
      ≡ ok (record {
        name = "a.txt";
        path = concat sent.0.root (concat "/" (concat "u1" (concat "-" "a.txt")));
        directory = false;
      }))
    × (lookup (concat "u1" (concat "-" "a.txt")) (finish sent.0 "u1" true true 3).0.files
        ≡ some (content parts))
upload-roundtrip_example =
    upload-roundtrip empty_cache "a.txt" "u1" true 0 3 parts (unfold content in admitted)
      (unfold Timely in
        (omega arith, omega arith, omega arith, (omega arith, omega arith, omega arith, tt)))
      (unfold last_time in omega arith) refl

abbrev requests : List Event
requests = begun "a.txt" 3 "u1" true 0 ∷ chunked "u1" 0 (1 ∷ 2 ∷ []) all_written 1 ∷ []

run-disk_example :
    (length (run empty_cache requests).pending ≤ 8)
    × (used (run empty_cache requests) + reserved (run empty_cache requests).pending ≤ max_cache)
run-disk_example =
    run-disk empty_cache requests refl (omega arith) (unfold Whole in (tt, (refl, tt)))

taken : (chunk opened "u1" 0 (1 ∷ 2 ∷ []) all_written 1).1 ≡ ok tt
unfolding begin_upload drop_expired admit is_invalid_name is_empty any_char is_control chunk
taken = refl

chunk-again_example :
    chunk (chunk opened "u1" 0 (1 ∷ 2 ∷ []) all_written 1).0 "u1" 0 (1 ∷ 2 ∷ []) all_written 5
    ≡ ((chunk opened "u1" 0 (1 ∷ 2 ∷ []) all_written 1).0, err invalid_chunk)
chunk-again_example = chunk-again opened "u1" 0 (1 ∷ 2 ∷ []) all_written all_written 1 5 taken
