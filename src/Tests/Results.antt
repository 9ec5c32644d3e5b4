-- ===== src/Tests/Results.antt =====
-- harness/runtime/result_pipeline.py at a limit of four characters.
use Prim.Native.Char.{Char}
use marcus.Prelude.{ℕ, ◌≤◌, ◌<◌, String, ◌≡◌, true, List, [], ◌∷◌, arith}
use marcus.Prelude.Json.{null, int, Fields, pos, bool, text, field, end}
use marcus.Results.{truncate_result, content, as_dict, Digest}
use marcus.Results.Cut.{truncate_result-IsFaithful, IsFaithful}

abbrev letters : List Char
letters = "a" ∷ "b" ∷ "c" ∷ "d" ∷ "e" ∷ "f" ∷ []

abbrev dumped : Fields → List Char
dumped end = "a" ∷ []
dumped (field k v fs) = letters

abbrev digits_of : ℕ → String
digits_of n = "2"

truncate_result-IsFaithful_example :
    (6 ≤ 4 → truncate_result dumped digits_of 4 null ≡ as_dict null)
    × (4 < 6
        → (d : Digest) × IsFaithful 2 letters d
          × (truncate_result dumped digits_of 4 null
              ≡ field "_truncated" (bool true) (
                  field "_original_length"
                    (int (pos 6))
                    (field "content" (text (content dumped digits_of d)) end))))
truncate_result-IsFaithful_example =
    truncate_result-IsFaithful dumped digits_of 4 null (omega arith)
