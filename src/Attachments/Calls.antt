-- ===== src/Attachments/Calls.antt =====
-- What each request keeps of the transfers and of the room on the disk
-- (crates/latte-work-server/src/attachments.rs).
use latte_work.Common.{
  Result-cases, length-adjust, sum-adjust, All-adjust, All-lookup, ℕ, ◌+◌, ◌≤◌, ◌<◌, String, Bool,
  true, false, not, ◌||◌, List, [], ◌∷◌, ◌≡◌, refl, ap, sym, subst, inl, inr, Bool-cases,
  Option-cases, lookup, insert, remove, eqb, ltb, leb, leb→gt, ltb→ge, length, length-append, All,
  All-select, All-insert, length-insert, select_shorter, arith, sum_of, sum-select, sum-insert,
  sum-remove, is_some_and, ok, bail_if, bail_if-ok, >>=-eq-ok, ◌==◌,
}
use latte_work.Attachments.{
  Attachments, Pending, all_written, begin_upload, admit, chunk, finish, max_file, max_cache,
  files_size, temporary_size, reserved, drop_expired, is_expired, with_pending, new_pending, used,
  is_invalid_name, too_large, invalid_name, too_many_pending, directory_full, cache_full,
  no_temporary_file, extend, is_invalid_chunk, file_name,
}

pub record Sound (p : Pending) : Type 0 where
  pub bytes_Sound : length p.bytes ≡ p.written
  pub written_Sound : p.written ≤ p.size
  pub size_Sound : p.size ≤ max_file

abbrev pub SoundEntry : String × Pending → Type 0
SoundEntry e = Sound e.1

-- The bytes that the complete files and the transfers, when complete, will take.
abbrev pub planned : List (String × Pending) → ℕ
planned es = sum_of (λ e. e.1.size) es

pub record Within (s : Attachments) : Type 0 where
  pub sound_Within : All SoundEntry s.pending
  pub count_Within : length s.pending ≤ 8
  pub disk_Within : files_size s.files + planned s.pending ≤ max_cache

-- What is there and what is reserved for the rest of the transfers is what is planned.
pub planned-Sound :
    (es : List (String × Pending))
    → All SoundEntry es
    → temporary_size es + reserved es ≡ planned es
planned-Sound [] a = omega arith
planned-Sound (e ∷ es) a =
    let rest = planned-Sound es a.1 in
    let bytes = a.0.bytes_Sound in let written = a.0.written_Sound in omega arith

drop_expired-Within : (now : ℕ) (s : Attachments) → Within s → Within (drop_expired now s)
unfolding drop_expired
drop_expired-Within now s w =
    let live = λ (e : String × Pending). not (is_expired now e.1) in
    let fewer = select_shorter live s.pending in
    let less = sum-select (λ e. e.1.size) live s.pending in
    let count = w.count_Within in
    let disk = w.disk_Within in
    record {
      sound_Within = All-select SoundEntry live s.pending w.sound_Within;
      count_Within = omega arith;
      disk_Within = omega arith;
    }

pub remove-Within :
    (id : String) (s : Attachments) → Within s → Within (with_pending s (remove id s.pending))
remove-Within id s w =
    let other = λ (e : String × Pending). not (e.0 == id) in
    let fewer = select_shorter other s.pending in
    let less = sum-select (λ e. e.1.size) other s.pending in
    let count = w.count_Within in
    let disk = w.disk_Within in
    record {
      sound_Within = All-select SoundEntry other s.pending w.sound_Within;
      count_Within = omega arith;
      disk_Within = omega arith;
    }

-- A transfer that is admitted is new, and there was room for it.
pub admit-ok :
    (s : Attachments) (name : String) (size : ℕ) (id : String) (made : Bool) (now : ℕ)
    (r : Attachments × String)
    → admit s name size id made now ≡ ok r
    → (size ≤ max_file)
      × (length s.pending < 8)
      × (used s + reserved s.pending + size ≤ max_cache)
      × (r ≡ (with_pending s (insert id (new_pending name size now) s.pending), id))
unfolding admit
admit-ok s name size id made now r done =
    let (_, small, rest1) = >>=-eq-ok (bail_if (ltb max_file size) too_large) _ done in
    let (_, named, rest2) = >>=-eq-ok (bail_if (is_invalid_name name) invalid_name) _ rest1 in
    let (_, room, rest3) =
      >>=-eq-ok (bail_if (leb 8 (length s.pending)) too_many_pending) _ rest2 in
    let entries = ltb 4096 (length s.files + length s.pending) in
    let (_, listed, rest4) = >>=-eq-ok (bail_if entries directory_full) _ rest3 in
    let past = ltb max_cache (used s + reserved s.pending + size) in
    let (_, space, rest5) = >>=-eq-ok (bail_if past cache_full) _ rest4 in
    let (_, file, new) = >>=-eq-ok (bail_if (not made) no_temporary_file) _ rest5 in
    (
      ltb→ge _ _ (bail_if-ok (ltb max_file size) too_large small),
      leb→gt _ _ (bail_if-ok (leb 8 (length s.pending)) too_many_pending room),
      ltb→ge _ _ (bail_if-ok past cache_full space),
      ground arith,
    )

admit-Within :
    (s : Attachments) (name : String) (size : ℕ) (id : String) (made : Bool) (now : ℕ)
    (r : Attachments × String)
    → Within s
    → admit s name size id made now ≡ ok r
    → Within r.0
admit-Within s name size id made now r w done =
    let (fits, below, free, new) = admit-ok s name size id made now r done in
    let more = length-insert id (new_pending name size now) s.pending in
    let sum = sum-insert (λ e. e.1.size) id (new_pending name size now) s.pending in
    let plan = planned-Sound s.pending w.sound_Within in
    let opened : Within (with_pending s (insert id (new_pending name size now) s.pending)) =
      record {
        sound_Within =
            All-insert SoundEntry id (new_pending name size now) s.pending
              (record { bytes_Sound = refl; written_Sound = omega arith; size_Sound = fits })
              w.sound_Within;
        count_Within = omega arith;
        disk_Within = omega arith;
      } in
    subst Within (ap (λ x. x.0) (sym new)) opened

pub begin_upload-Within :
    (s : Attachments) (name : String) (size : ℕ) (id : String) (made : Bool) (now : ℕ)
    → Within s
    → Within (begin_upload s name size id made now).0
unfolding begin_upload
begin_upload-Within s name size id made now w =
    let live = drop_expired-Within now s w in
    elim (Result-cases (admit (drop_expired now s) name size id made now)) [
      | inl (r, e) ↦ rw e (admit-Within (drop_expired now s) name size id made now r live e)
      | inr (x, e) ↦ rw e live
    ]

extend-Sound :
    (p : Pending) (offset : ℕ) (bytes : List ℕ) (now : ℕ)
    → is_invalid_chunk p offset bytes now ≡ false
    → Sound p
    → Sound (extend bytes now p)
extend-Sound p offset bytes now valid k =
    let size = length-append p.bytes bytes in
    let room : ltb p.size (p.written + length bytes) ≡ false = ground arith in
    let fits = ltb→ge p.size (p.written + length bytes) room in
    let counted = k.bytes_Sound in
    record { bytes_Sound = omega arith; written_Sound = fits; size_Sound = k.size_Sound }

pub chunk-Within :
    (s : Attachments) (id : String) (offset : ℕ) (bytes : List ℕ) (now : ℕ)
    → Within s
    → Within (chunk s id offset bytes all_written now).0
unfolding chunk
chunk-Within s id offset bytes now w = elim (Option-cases (lookup id s.pending)) [
  | inl e ↦ rw (chunk, e) w
  | inr (p, e) ↦ elim (Bool-cases (is_invalid_chunk p offset bytes now)) [
    | inl bad ↦ rw (chunk, e, bad) w
    | inr valid ↦
        let same = length-adjust id (extend bytes now) s.pending in
        let plan = sum-adjust (λ p. p.size) id (extend bytes now) s.pending (λ p. refl) in
        let count = w.count_Within in
        let disk = w.disk_Within in
        rw (chunk, e, valid)
          (record {
            sound_Within =
                All-adjust SoundEntry id (extend bytes now) p s.pending e
                  (extend-Sound p offset bytes now valid) w.sound_Within;
            count_Within = omega arith;
            disk_Within = omega arith;
          })
  ]
]

pub finish-Within :
    (s : Attachments) (id : String) (synced renamed : Bool) (now : ℕ)
    → Within s
    → Within (finish s id synced renamed now).0
unfolding finish
finish-Within s id synced renamed now w =
    let gone = remove-Within id s w in
    elim (Option-cases (lookup id s.pending)) [
      | inl e ↦ rw (finish, e) w
      | inr (p, e) ↦ elim (Bool-cases (not (eqb p.written p.size) || is_expired now p)) [
        | inl bad ↦ rw (finish, e, bad) w
        | inr whole ↦ elim (Bool-cases synced) [
          | inr t ↦ rw (finish, e, whole, t) gone
          | inl t ↦
              elim (Bool-cases
                (not renamed || is_some_and (λ f. true) (lookup (file_name id p) s.files))) [
                  | inl u ↦ rw (finish, e, whole, t, u) gone
                  | inr u ↦
                      let sound = All-lookup SoundEntry id p s.pending w.sound_Within e in
                      let less = sum-remove (λ p. p.size) id p s.pending e in
                      let bytes = sound.bytes_Sound in
                      let fits = sound.written_Sound in
                      let disk = w.disk_Within in
                      rw (finish, e, whole, t, u)
                        (record {
                          sound_Within = gone.sound_Within;
                          count_Within = gone.count_Within;
                          disk_Within = omega arith;
                        })
                ]
        ]
      ]
    ]
