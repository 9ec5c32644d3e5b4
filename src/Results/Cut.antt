-- ===== src/Results/Cut.antt =====
-- What a digest of harness/runtime/result_pipeline.py keeps.
use Prim.Native.Char.{Char}
use mathlib.Core.Path.{Path}
use marcus.Prelude.{
  length, take, drop, ℕ, zero, suc, ◌+◌, ◌-◌, ◌≤◌, ◌≡◌, refl, ap, List, [], ◌∷◌, ◌++◌, arith, ◌/◌,
  ◌<◌, String, sym, true,
}
use marcus.Prelude.Json.{Fields, text, pos, int, field, bool, end, Json}
use marcus.Results.{Digest, as_dict, truncate_result, digest, last, content}

module _ {ℓ} {A : Type ℓ} where
  take-append-drop : (n : ℕ) (s : List A) → take n s ++ drop n s ≡ s
  take-append-drop zero s = refl
  take-append-drop (suc n) [] = refl
  take-append-drop (suc n) (x ∷ s) = ap (λ r. x ∷ r) (take-append-drop n s)

  length-take : (n : ℕ) (s : List A) → n ≤ length s → length (take n s) ≡ n
  length-take zero s h = refl
  length-take (suc n) [] h = absurd (omega (arith, h))
  length-take (suc n) (x ∷ s) h = ap suc (length-take n s (omega (arith, h)))

  length-drop : (n : ℕ) (s : List A) → length (drop n s) ≡ length s - n
  length-drop zero s = omega arith
  length-drop (suc n) [] = omega arith
  length-drop (suc n) (x ∷ s) = omega (arith, length-drop n s)

  drop-nil : (n : ℕ) → Path (List A) (drop n []) []
  drop-nil zero = refl
  drop-nil (suc n) = refl

  drop-drop : (m n k : ℕ) (s : List A) → k ≡ n + m → drop m (drop n s) ≡ drop k s
  drop-drop m zero k s h = ap (λ i. drop i s) (omega (arith, h))
  drop-drop m (suc n) zero s h = absurd (omega (arith, h))
  drop-drop m (suc n) (suc k) [] h = drop-nil m
  drop-drop m (suc n) (suc k) (x ∷ s) h = drop-drop m n k s (omega (arith, h))

  -- A list in three parts, the outer two of them `half` long.
  abbrev pub middle : ℕ → List A → List A
  middle half s = take (length s - half - half) (drop half s)

  parts :
      (half : ℕ) (s : List A)
      → half + half ≤ length s
      → take half s ++ (middle half s ++ drop (length s - half) s) ≡ s
  parts half s h =
      let inner = take-append-drop (length s - half - half) (drop half s) in
      let tail = drop-drop (length s - half - half) half (length s - half) s (omega (arith, h)) in
      rw (sym tail) (rw inner (take-append-drop half s))

-- What a digest keeps of a text: the text is its head, a part left out and its tail.
pub record IsFaithful (half : ℕ) (s : List Char) (d : Digest) : Type 0 where
  pub left_out : List Char
  pub whole : d.head ++ (left_out ++ d.tail) ≡ s
  pub counted : length left_out ≡ d.omitted
  pub head_length : length d.head ≡ half
  pub tail_length : length d.tail ≡ half

digest-IsFaithful :
    (max_chars : ℕ) (s : List Char)
    → 1 < max_chars
    → max_chars < length s
    → IsFaithful (max_chars / 2) s (digest max_chars s)
unfolding digest
digest-IsFaithful max_chars s two long =
    let half : ℕ = max_chars / 2 in
    let small : half + half ≤ length s = omega (arith, long) in
    let positive : 0 < half = omega (arith, two) in
    let head = length-take half s (omega (arith, small)) in
    let rest = length-drop half s in
    let tail = length-drop (length s - half) s in
    let mid = length-take (length s - half - half) (drop half s) (omega (arith, rest)) in
    let cut : last half s ≡ drop (length s - half) s = ground (arith, positive) in
    record {
      left_out = middle half s;
      whole = rw cut (parts half s small);
      counted = rw cut (omega (arith, mid, head, tail, small));
      head_length = head;
      tail_length = rw cut (omega (arith, tail, small));
    }

module _ (dumps : Fields → List Char) (digits : ℕ → String) where
  -- For a limit of at least two characters: a result whose JSON is not longer is passed on as it is,
  -- as a dictionary. A longer one is replaced by the length of its JSON and a digest, which is made
  -- of the first and of the last half of the limit of its characters, and of the number of those
  -- that stand between the two, none of which is lost in the count.
  pub truncate_result-IsFaithful :
      (max_chars : ℕ) (value : Json)
      → 1 < max_chars
      → let result = as_dict value in
        let serialized = dumps result in
        (length serialized ≤ max_chars → truncate_result dumps digits max_chars value ≡ result)
        × (max_chars < length serialized
            → (d : Digest) × IsFaithful (max_chars / 2) serialized d
              × (truncate_result dumps digits max_chars value
                  ≡ field "_truncated" (bool true) (
                      field "_original_length"
                        (int (pos (length serialized)))
                        (field "content" (text (content dumps digits d)) end))))
  unfolding truncate_result
  truncate_result-IsFaithful max_chars value two = (
    λ short. ground arith,
    λ long. (
      digest max_chars (dumps (as_dict value)),
      digest-IsFaithful max_chars (dumps (as_dict value)) two long,
      ground arith,
    ),
  )
