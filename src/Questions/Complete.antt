-- ===== src/Questions/Complete.antt =====
-- Accepted answers answer every question (`validate`, crates/latte-work-server/src/questions.rs).
use latte_work.Common.{
  ℕ, suc, ◌≤◌, ◌<◌, String, true, false, not, ◌||◌, List, [], ◌∷◌, map, ◌≡◌, refl, sym, ap, ◌∙◌,
  inl, inr, some, ◌==◌, ==_refl, ==-eq, leb, eqb, find?, All, In, map-In, any-In, contains,
  has_duplicates, length, Bool-cases, Option-cases, arith, if◌then◌else◌, ok, bail_if, bail_if-ok,
  ok_or, >>=-eq-ok,
}
use latte_work.Protocol.Values.{UserQuestion, QuestionAnswer}
use latte_work.Questions.{
  unanswered, foreign_answer, answered_twice, invalid_option, text_too_long, no_choice,
  has_invalid_index, choices, check_answer, check_answers, validate, is_too_long, is_no_choice,
}

drop_one : String → List String → List String
drop_one x [] = []
drop_one x (y ∷ ys) = if y == x then ys else y ∷ drop_one x ys

length-drop_one :
    (x : String) (ys : List String)
    → contains ys x ≡ true
    → suc (length (drop_one x ys)) ≡ length ys
unfolding drop_one
length-drop_one x [] h = absurd (cc)
length-drop_one x (y ∷ ys) h = ground (arith, length-drop_one x ys)

contains-drop_one :
    (x z : String) (ys : List String)
    → (x == z) ≡ false
    → contains ys z ≡ true
    → contains (drop_one x ys) z ≡ true
unfolding drop_one
contains-drop_one x z [] ne h = h
contains-drop_one x z (y ∷ ys) ne h = elim (Bool-cases (y == x)) [
  | inl e ↦ let other : (y == z) ≡ false = rw (==-eq y x e) ne in rw e (ground arith)
  | inr e ↦ rw e (ground (arith, contains-drop_one x z ys ne))
]

-- Different texts that all stand in a list are no more than the list.
distinct_fit :
    (xs ys : List String)
    → has_duplicates xs ≡ false
    → ((z : String) → contains xs z ≡ true → contains ys z ≡ true)
    → length xs ≤ length ys
distinct_fit [] ys d h = omega arith
distinct_fit (x ∷ xs) ys d h =
    let here : contains ys x ≡ true = h x (rw (==_refl x)) in
    let new : contains xs x ≡ false = ground arith in
    let rest = distinct_fit xs (drop_one x ys) (ground arith) (λ z m.
      let apart : (x == z) ≡ false = elim (Bool-cases (x == z)) [
        | inl e ↦ absurd (cc (ap (contains xs) (==-eq x z e), new, m))
        | inr e ↦ e
      ] in
      contains-drop_one x z ys apart (h z (rw apart m))) in
    omega (arith, rest, length-drop_one x ys here)

-- As many different texts of a list as the list is long are all its texts.
distinct_fill :
    (xs ys : List String) (y : String)
    → has_duplicates xs ≡ false
    → ((z : String) → contains xs z ≡ true → contains ys z ≡ true)
    → length xs ≡ length ys
    → contains ys y ≡ true
    → contains xs y ≡ true
distinct_fill xs ys y d h e m = elim (Bool-cases (contains xs y)) [
  | inl k ↦ k
  | inr k ↦
      let more = distinct_fit (y ∷ xs) ys (rw k d) (λ z n. both k z n) in
      absurd (omega (arith, more, e))
]
  where
    both : contains xs y ≡ false → (z : String) → contains (y ∷ xs) z ≡ true → contains ys z ≡ true
    both k z n = elim (Bool-cases (y == z)) [
      | inl p ↦ rw (← ==-eq y z p) m
      | inr p ↦ h z (rw p at n)
    ]

-- An answer that fits its question: indices of its options, and some choice, one alone unless several
-- are allowed.
pub record Fits (q : UserQuestion) (a : QuestionAnswer) : Type 0 where
  pub in_range : All (λ i. i < length q.options) a.option_indices
  pub some_choice : 0 < choices a
  pub one_choice : (q.multi_select || eqb (choices a) 1) ≡ true

in_range_of :
    (options : ℕ) (selected is : List ℕ)
    → has_invalid_index options selected is ≡ false
    → All (λ i. i < options) is
unfolding has_invalid_index
in_range_of options selected [] h = tt
in_range_of options selected (i ∷ is) h =
    let here : leb options i ≡ false = ground arith in
    (ground arith, in_range_of options (i ∷ selected) is (ground arith))

check_answer-Fits : (q : UserQuestion) (a : QuestionAnswer) → check_answer q a ≡ ok tt → Fits q a
unfolding check_answer
check_answer-Fits q a h =
    let (_, i, h1) =
      >>=-eq-ok (bail_if (has_invalid_index (length q.options) [] a.option_indices) invalid_option)
        _ h in
    let (_, t, h2) = >>=-eq-ok (bail_if (is_too_long a) text_too_long) _ h1 in
    let c : is_no_choice q a ≡ false = bail_if-ok (is_no_choice q a) no_choice h2 in
    record {
      in_range = in_range_of _ [] a.option_indices (bail_if-ok _ _ i);
      some_choice = ground arith;
      one_choice = ground arith;
    }

abbrev pub answered : List QuestionAnswer → List String
answered = map λ a. a.question_id

abbrev pub asked : List UserQuestion → List String
asked = map λ q. q.id

asked-find :
    (questions : List UserQuestion) (id : String) (q : UserQuestion)
    → find? (λ q. q.id == id) questions ≡ some q
    → contains (asked questions) id ≡ true
asked-find [] id q h = absurd (cc)
asked-find (x ∷ xs) id q h = ground (arith, asked-find xs id q)

-- What holds of the answers that pass behind others.
record Passed (questions : List UserQuestion) (seen : List String) (answers : List QuestionAnswer)
    : Type 0 where
  apart : has_duplicates (answered answers) ≡ false
  unseen : (z : String) → contains (answered answers) z ≡ true → contains seen z ≡ false
  known : (z : String) → contains (answered answers) z ≡ true → contains (asked questions) z ≡ true
  fitting :
      (a : QuestionAnswer) (q : UserQuestion)
      → In a answers
      → find? (λ q. q.id == a.question_id) questions ≡ some q
      → Fits q a

check_answers-Passed :
    (questions : List UserQuestion) (seen : List String) (answers : List QuestionAnswer)
    → check_answers questions seen answers ≡ ok tt
    → Passed questions seen answers
unfolding check_answers
check_answers-Passed questions seen [] h = record {
  apart = refl;
  unseen = λ z m. absurd (cc);
  known = λ z m. absurd (cc);
  fitting = λ a q m. elim m [ ];
}
check_answers-Passed questions seen (b ∷ answers) h =
    let (q, f, h1) =
      >>=-eq-ok
        (ok_or (find? (λ (q : UserQuestion). q.id == b.question_id) questions) foreign_answer) _
        h in
    let (_, n, h2) = >>=-eq-ok (bail_if (contains seen b.question_id) answered_twice) _ h1 in
    let (_, k, h3) = >>=-eq-ok (check_answer q b) _ h2 in
    let found : find? (λ (q : UserQuestion). q.id == b.question_id) questions ≡ some q =
      elim (Option-cases (find? (λ (q : UserQuestion). q.id == b.question_id) questions)) [
        | inl e ↦ absurd (ground arith)
        | inr (x, e) ↦ ground arith
      ] in
    let new : contains seen b.question_id ≡ false = bail_if-ok _ _ n in
    let rest = check_answers-Passed questions (b.question_id ∷ seen) answers h3 in
    let here : contains (answered answers) b.question_id ≡ false =
      elim (Bool-cases (contains (answered answers) b.question_id)) [
        | inl e ↦ absurd (ground (arith, rest.unseen b.question_id e, ==_refl b.question_id))
        | inr e ↦ e
      ] in
    record {
      apart = rw (here, rest.apart);
      unseen = λ z m. elim (Bool-cases (b.question_id == z)) [
        | inl e ↦ rw (← ==-eq b.question_id z e) new
        | inr e ↦ ground (arith, rest.unseen z (rw e at m))
      ];
      known = λ z m. elim (Bool-cases (b.question_id == z)) [
        | inl e ↦ rw (← ==-eq b.question_id z e) (asked-find questions b.question_id q found)
        | inr e ↦ rest.known z (rw e at m)
      ];
      fitting = λ a p m f. elim m [
        | inl e ↦
            let same : q ≡ p = ground (arith, found, rw (← e) at f) in
            rw (← same, ← e) (check_answer-Fits q b k)
        | inr i ↦ rest.fitting a p i f
      ];
    }

answer_to :
    (answers : List QuestionAnswer) (id : String)
    → contains (answered answers) id ≡ true
    → (a : QuestionAnswer) × In a answers × (a.question_id ≡ id)
answer_to [] id h = absurd (cc)
answer_to (a ∷ answers) id h = elim (Bool-cases (a.question_id == id)) [
  | inl e ↦ (a, inl refl, ==-eq _ _ e)
  | inr e ↦ let (b, m, k) = answer_to answers id (rw e at h) in (b, inr m, k)
]

find-asked :
    (questions : List UserQuestion) (q : UserQuestion)
    → has_duplicates (asked questions) ≡ false
    → In q questions
    → find? (λ x. x.id == q.id) questions ≡ some q
find-asked [] q d m = elim m [ ]
find-asked (x ∷ xs) q d (inl e) = rw e (rw (==_refl q.id))
find-asked (x ∷ xs) q d (inr m) =
    let there : contains (asked xs) q.id ≡ true =
      any-In (λ y. y == q.id) q.id (asked xs) (map-In (λ (y : UserQuestion). y.id) q xs m)
        (==_refl q.id) in
    elim (Bool-cases (x.id == q.id)) [
      | inl e ↦ absurd (ground (arith, there, ap (contains (asked xs)) (==-eq x.id q.id e)))
      | inr e ↦ rw e (find-asked xs q (ground arith) m)
    ]

-- Of questions with different identifiers, answers that are accepted answer each one, and once: with
-- some choice, which is the only one unless several are allowed, and with options that the question
-- has.
pub validate-Fits :
    (questions : List UserQuestion) (answers : List QuestionAnswer) (q : UserQuestion)
    → has_duplicates (asked questions) ≡ false
    → validate questions answers ≡ ok tt
    → In q questions
    → (has_duplicates (answered answers) ≡ false)
      × ((a : QuestionAnswer) × In a answers × (a.question_id ≡ q.id) × Fits q a)
unfolding validate
validate-Fits questions answers q d h m =
    let (_, e, h1) =
      >>=-eq-ok (bail_if (not (eqb (length answers) (length questions))) unanswered) _ h in
    let as_many : length answers ≡ length questions =
      ground (arith, bail_if-ok (not (eqb (length answers) (length questions))) unanswered e) in
    let p = check_answers-Passed questions [] answers h1 in
    let there : contains (asked questions) q.id ≡ true =
      any-In (λ y. y == q.id) q.id (asked questions)
        (map-In (λ (y : UserQuestion). y.id) q questions m) (==_refl q.id) in
    let lengths : length (answered answers) ≡ length (asked questions) =
      length-map (λ (a : QuestionAnswer). a.question_id) answers
      ∙ as_many
      ∙ sym (length-map (λ (y : UserQuestion). y.id) questions) in
    let (a, i, k) =
      answer_to answers q.id
        (distinct_fill (answered answers) (asked questions) q.id p.apart p.known lengths there) in
    (p.apart, (a, i, k, p.fitting a q i (rw k (find-asked questions q d m))))
  where
    length-map : {A : Type 0} (f : A → String) (xs : List A) → length (map f xs) ≡ length xs
    length-map f [] = refl
    length-map f (x ∷ xs) = ap suc (length-map f xs)
