-- ===== src/Tests/Limits.antt =====
-- A limit of two calls in a window of ten.
use data_sync.Base.{◌≡◌, refl, arith, true, false, List, [], ◌∷◌}
use data_sync.Text.{lit, text_eq}
use data_sync.Dict.{get, insert}
use data_sync.Limiter.Specification.{Request, answers, expected}
use data_sync.Limiter.Refinement.{answers-expected}

abbrev requests : List Request
requests =
    (lit "ip", 1)
    ∷ (lit "ip", 2)
    ∷ (lit "other", 3)
    ∷ (lit "ip", 4)
    ∷ (lit "ip", 11)
    ∷ (lit "ip", 12)
    ∷ []

answers-expected_example : answers 2 10 [] requests ≡ expected 2 10 [] requests
answers-expected_example =
    answers-expected 2 10 requests
      (omega arith, (omega arith, (omega arith, (omega arith, (omega arith, (omega arith, tt))))))

-- The window is closed: a call that came exactly ten earlier still counts.
run_of_answers : answers 2 10 [] requests ≡ true ∷ true ∷ true ∷ false ∷ false ∷ true ∷ []
unfolding answers get insert text_eq
run_of_answers = refl
