-- ===== src/Attachments/Upload.antt =====
-- What is sent in chunks is what the finished file holds
-- (crates/latte-work-server/src/attachments.rs).
use latte_work.Common.{
  concat, ℕ, ◌+◌, ◌≤◌, ◌<◌, String, Bool, true, false, not, ◌||◌, List, [], ◌∷◌, ◌++◌, ◌≡◌, refl,
  ap, sym, ◌∙◌, inl, inr, none, some, lookup, adjust, eqb, append-nil, append_assoc, length,
  length-append, lookup-insert, lookup-adjust, arith, ==_refl, Result, ok, err, Result-cases,
}
use latte_work.Attachments.Calls.{admit-ok}
use latte_work.Attachments.{
  Attachments, Pending, all_written, begin_upload, admit, chunk, finish, AttachmentError,
  is_expired, is_invalid_chunk, extend, new_pending, with_pending, file_name, drop_expired,
}

abbrev pub and_then :
    Attachments × Result AttachmentError (Unit {0})
    → (Attachments → Attachments × Result AttachmentError (Unit {0}))
    → Attachments × Result AttachmentError (Unit {0})
and_then (s, ok u) next = next s
and_then (s, err e) next = (s, err e)

-- A client that sends chunks, each at its time, one after the other, and stops at an error.
unfoldable pub send :
    Attachments → String → ℕ → List (List ℕ × ℕ) → Attachments × Result AttachmentError (Unit {0})
send s id offset [] = (s, ok tt)
send s id offset (c ∷ cs) =
    and_then (chunk s id offset c.0 all_written c.1) (λ t. send t id (offset + length c.0) cs)

unfoldable pub content : List (List ℕ × ℕ) → List ℕ
content [] = []
content (c ∷ cs) = c.0 ++ content cs

-- The time of the last chunk.
unfoldable pub last_time : ℕ → List (List ℕ × ℕ) → ℕ
last_time t [] = t
last_time t (c ∷ cs) = last_time c.1 cs

-- No chunk is empty or longer than 64 KiB, and each comes within ten minutes of what was before it.
unfoldable pub Timely : ℕ → List (List ℕ × ℕ) → Type 0
Timely t [] = Unit
Timely t (c ∷ cs) = (0 < length c.0) × (length c.0 ≤ 65536) × (c.1 < t + 600) × Timely c.1 cs

valid_chunk :
    (p : Pending) (bytes : List ℕ) (now : ℕ)
    → 0 < length bytes
    → length bytes ≤ 65536
    → now < p.touched + 600
    → p.written + length bytes ≤ p.size
    → is_invalid_chunk p p.written bytes now ≡ false
valid_chunk p bytes now some_bytes short soon fits = ground arith

-- The transfer after the chunks.
abbrev pub after_chunks : Pending → List (List ℕ × ℕ) → Pending
after_chunks p cs = record {
  bytes = p.bytes ++ content cs;
  name = p.name;
  size = p.size;
  written = p.written + length (content cs);
  touched = last_time p.touched cs;
}

chunk_accepted :
    (s : Attachments) (id : String) (p : Pending) (bytes : List ℕ) (now : ℕ)
    → lookup id s.pending ≡ some p
    → is_invalid_chunk p p.written bytes now ≡ false
    → chunk s id p.written bytes all_written now
      ≡ (with_pending s (adjust id (extend bytes now) s.pending), ok tt)
unfolding chunk
chunk_accepted s id p bytes now h valid = rw (chunk, h, valid) refl

same_pending :
    (bytes bytes' : List ℕ) (name : String) (size written written' touched : ℕ)
    → bytes ≡ bytes'
    → written ≡ written'
    → ◌≡◌ {A = Pending}
        (record { bytes = bytes; name = name; size = size; written = written; touched = touched })
        (record { bytes = bytes'; name = name; size = size; written = written'; touched = touched })
same_pending bytes bytes' name size written written' touched hb hw = rw (hb, hw) refl

send-after :
    (cs : List (List ℕ × ℕ)) (s : Attachments) (id : String) (p : Pending)
    → lookup id s.pending ≡ some p
    → Timely p.touched cs
    → p.written + length (content cs) ≤ p.size
    → ((send s id p.written cs).1 ≡ ok tt)
      × (lookup id (send s id p.written cs).0.pending ≡ some (after_chunks p cs))
      × ((send s id p.written cs).0.files ≡ s.files)
unfolding send content last_time Timely
send-after [] s id p h timely fits =
    let same =
      same_pending p.bytes (p.bytes ++ []) p.name p.size p.written (p.written + 0) p.touched
        (sym (append-nil p.bytes)) (omega arith) in
    (refl, h ∙ ap some same, refl)
send-after (c ∷ cs) s id p h timely fits =
    let (some_bytes, short, soon, later) = timely in
    let size = length-append c.0 (content cs) in
    let valid = valid_chunk p c.0 c.1 some_bytes short soon (omega arith) in
    let s' = with_pending s (adjust id (extend c.0 c.1) s.pending) in
    let p' = extend c.0 c.1 p in
    let (done, found, files) =
      send-after cs s' id p' (lookup-adjust id (extend c.0 c.1) p s.pending h) later
        (omega arith) in
    let same =
      same_pending ((p.bytes ++ c.0) ++ content cs) (p.bytes ++ (c.0 ++ content cs)) p.name p.size
        (p.written + length c.0 + length (content cs)) (p.written + length (c.0 ++ content cs))
        (last_time c.1 cs) (append_assoc p.bytes c.0 (content cs)) (omega arith) in
    rw (chunk_accepted s id p c.0 c.1 h valid) (done, found ∙ ap some same, files)

begin_upload-pending :
    (s : Attachments) (name : String) (size : ℕ) (id : String) (made : Bool) (now : ℕ)
    → (begin_upload s name size id made now).1 ≡ ok id
    → (lookup id (begin_upload s name size id made now).0.pending
        ≡ some (new_pending name size now))
      × ((begin_upload s name size id made now).0.files ≡ s.files)
unfolding begin_upload drop_expired
begin_upload-pending s name size id made now done =
    elim (Result-cases (admit (drop_expired now s) name size id made now)) [
      | inl (r, e) ↦
          let opened = (admit-ok (drop_expired now s) name size id made now r e).3 in
          rw (e, opened)
            (lookup-insert id (new_pending name size now) (drop_expired now s).pending, refl)
      | inr (x, e) ↦ absurd (cc (rw e at done))
    ]

finish_whole :
    (s : Attachments) (id : String) (p : Pending) (now : ℕ)
    → lookup id s.pending ≡ some p
    → p.written ≡ p.size
    → now < p.touched + 600
    → lookup (file_name id p) s.files ≡ none
    → ((finish s id true true now).1
        ≡ ok (record {
          name = p.name;
          path = concat s.root (concat "/" (file_name id p));
          directory = false;
        }))
      × (lookup (file_name id p) (finish s id true true now).0.files ≡ some p.bytes)
unfolding finish
finish_whole s id p now h whole soon new =
    let unfinished : (not (eqb p.written p.size) || is_expired now p) ≡ false = ground arith in
    rw (finish, h, unfinished, new) (refl, rw (==_refl (file_name id p)) refl)

-- When `begin` admits a transfer of a size, chunks of that size together are sent at consecutive
-- offsets, none empty or longer than 64 KiB, each and the `finish` within ten minutes of what was
-- before, the system writes, syncs and renames, and no file has the name yet, then `finish` returns
-- the path of a file which holds the bytes of the chunks in the order in which they were sent.
pub upload-roundtrip :
    (s : Attachments) (name id : String) (made : Bool) (begun finished : ℕ) (cs : List (List ℕ × ℕ))
    → (begin_upload s name (length (content cs)) id made begun).1 ≡ ok id
    → Timely begun cs
    → finished < last_time begun cs + 600
    → lookup (concat id (concat "-" name)) s.files ≡ none
    → let sent = send (begin_upload s name (length (content cs)) id made begun).0 id 0 cs in
      ((finish sent.0 id true true finished).1
        ≡ ok (record {
          name = name;
          path = concat sent.0.root (concat "/" (concat id (concat "-" name)));
          directory = false;
        }))
      × (lookup (concat id (concat "-" name)) (finish sent.0 id true true finished).0.files
          ≡ some (content cs))
upload-roundtrip s name id made begun finished cs admitted timely soon new =
    let size = length (content cs) in
    let s0 = (begin_upload s name size id made begun).0 in
    let (found, files) = begin_upload-pending s name size id made begun admitted in
    let (sent, there, kept) =
      send-after cs s0 id (new_pending name size begun) found timely (omega arith) in
    finish_whole (send s0 id 0 cs).0 id (after_chunks (new_pending name size begun) cs) finished
      there (omega arith) soon (ap (lookup (concat id (concat "-" name))) (kept ∙ files) ∙ new)
