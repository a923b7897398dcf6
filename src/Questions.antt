-- ===== src/Questions.antt =====
-- crates/latte-work-server/src/questions.rs: the check of the answers to an Agent's questions.
pub mod Complete
use latte_work.Common.{
  ℕ, ◌+◌, ◌*◌, String, len, count, Bool, true, false, not, ◌&&◌, ◌||◌, List, [], ◌∷◌, Option, none,
  some, ◌==◌, ltb, leb, eqb, if◌then◌else◌, find?, any, contains, length, is_empty, trim, Result,
  ok, bail_if, ok_or, ◌>>=◌, ◌>>◌,
}
use latte_work.Protocol.Values.{UserQuestion, QuestionAnswer, QuestionOption}

pub data AnswerError : Type 0 where
  unanswered foreign_answer answered_twice invalid_option text_too_long no_choice : AnswerError

-- The set `selected` refuses an index that stands twice; `options` is the number of the options.
unfoldable pub has_invalid_index : ℕ → List ℕ → List ℕ → Bool
has_invalid_index options selected [] = false
has_invalid_index options selected (i ∷ is) =
    any (λ j. eqb j i) selected || leb options i || has_invalid_index options (i ∷ selected) is

abbrev pub own_text : QuestionAnswer → String
own_text a = elim a.text [ none ↦ "" | some t ↦ trim t ]

-- The options and the text that an answer gives. The indices differ when this is counted.
unfoldable pub choices : QuestionAnswer → ℕ
choices a = length a.option_indices + (if is_empty (own_text a) then 0 else 1)

abbrev pub is_too_long : QuestionAnswer → Bool
is_too_long a = ltb (32 * 1024) (len (own_text a)) || ltb 8000 (count (own_text a))

abbrev pub is_no_choice : UserQuestion → QuestionAnswer → Bool
is_no_choice q a = eqb (choices a) 0 || (not q.multi_select && not (eqb (choices a) 1))

unfoldable pub check_answer : UserQuestion → QuestionAnswer → Result AnswerError (Unit {0})
check_answer q a = do
  bail_if (has_invalid_index (length q.options) [] a.option_indices) invalid_option
  bail_if (is_too_long a) text_too_long
  bail_if (is_no_choice q a) no_choice

unfoldable pub check_answers :
    List UserQuestion → List String → List QuestionAnswer → Result AnswerError (Unit {0})
unfolding check_answer
check_answers questions seen [] = ok tt
check_answers questions seen (a ∷ answers) = do
  q ← ok_or (find? (λ q. q.id == a.question_id) questions) foreign_answer
  bail_if (contains seen a.question_id) answered_twice
  check_answer q a
  check_answers questions (a.question_id ∷ seen) answers

unfoldable pub validate : List UserQuestion → List QuestionAnswer → Result AnswerError (Unit {0})
unfolding check_answers
validate questions answers = do
  bail_if (not (eqb (length answers) (length questions))) unanswered
  check_answers questions [] answers
