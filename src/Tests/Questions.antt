-- ===== src/Tests/Questions.antt =====
-- Answers at concrete inputs.
use latte_work.Common.{
  ◌≡◌, refl, true, false, List, [], ◌∷◌, none, ok, err, inl, In, has_duplicates, is_empty, trim,
}
use latte_work.Protocol.Values.{UserQuestion, QuestionAnswer}
use latte_work.Questions.{validate, check_answer, has_invalid_index, choices, invalid_option}
use latte_work.Questions.Complete.{validate-Fits, answered, Fits}

abbrev colour : UserQuestion
colour = record {
  id = "q0";
  header = "";
  text = "Choose";
  options = record { label = "One"; description = "" } ∷ [];
  multi_select = true;
}

abbrev first_option : List QuestionAnswer
first_option = record { question_id = "q0"; option_indices = 0 ∷ []; text = none } ∷ []

accepted : validate (colour ∷ []) first_option ≡ ok tt
unfolding validate check_answer has_invalid_index choices is_empty trim
accepted = refl

repeated :
    validate
      (colour ∷ [])
      (record { question_id = "q0"; option_indices = 0 ∷ 0 ∷ []; text = none } ∷ [])
    ≡ err invalid_option
unfolding validate check_answer has_invalid_index choices is_empty trim
repeated = refl

validate-Fits_example :
    (has_duplicates (answered first_option) ≡ false)
    × ((a : QuestionAnswer) × In a first_option × (a.question_id ≡ "q0") × Fits colour a)
validate-Fits_example = validate-Fits (colour ∷ []) first_option colour refl accepted (inl refl)
