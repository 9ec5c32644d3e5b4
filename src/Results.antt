-- ===== src/Results.antt =====
-- harness/runtime/result_pipeline.py: the truncation of a tool's result. A text is its list of
-- characters where it is cut. `dumps` is orjson's, and `digits` writes a number out.
pub mod Cut
use Prim.Native.Char.{Char}
use package.text.Mathlib.TextBridge.{of_list}
use marcus.Prelude.{
  if◌then◌else◌, leb, drop, length, take, ◌==◌, ℕ, ◌-◌, ◌/◌, String, true, List, nat_eq,
}
use marcus.Prelude.Json.{pos, Json, field, end, obj, int, Fields, text, bool}
use marcus.Prelude.Texts.{concat}

-- s[-n:], where -0 is 0
abbrev pub last : ℕ → List Char → List Char
last n s = if n == 0 then s else drop (length s - n) s

abbrev pub as_dict : Json → Fields
as_dict (obj fs) = fs
as_dict v = field "value" v end

-- The parts of a digest: what stands before and after the mark, and the number of characters that
-- the mark names.
pub record Digest : Type 0 where
  pub head : List Char
  pub tail : List Char
  pub omitted : ℕ

unfoldable pub digest : ℕ → List Char → Digest
digest max_chars serialized =
    let half = max_chars / 2 in
    let head = take half serialized in
    let tail = last half serialized in
    record { head = head; tail = tail; omitted = length serialized - length head - length tail }

module _ (dumps : Fields → List Char) (digits : ℕ → String) where
  abbrev pub content : Digest → String
  content d =
      concat (of_list d.head)
        (concat "...[truncated " (concat (digits d.omitted) (concat " chars]..." (of_list d.tail))))

  unfoldable pub truncate_result : ℕ → Json → Fields
  unfolding digest
  truncate_result max_chars value =
      let result = as_dict value in
      let serialized = dumps result in
      if leb (length serialized) max_chars
      then result
      else field "_truncated" (bool true) (
          field "_original_length" (int (pos (length serialized)))
            (field "content" (text (content (digest max_chars serialized))) end))
