-- ===== src/Gateway/Recut.antt =====
-- How `complete_stream` puts an answer together again.
use mathlib.Core.List.{append-nil, append_assoc}
use package.text.Mathlib.TextLemmas.{
  nil-append, append-nil as append-nil_text, append_assoc as append_assoc_text,
}
use marcus.Prelude.{
  ℕ, Bool-cases, ==-true, ◌==◌, String, ◌≡◌, refl, inl, inr, none, List, ◌++◌, string_eq, All, ◌<◌,
  [], ◌∷◌, arith, suc, ◌∙◌, Bool, sym, ap, Option, map, zero, nat_eq,
}
use marcus.Gateway.{got, or_json, text_of, Raised}
use marcus.Gateway.Cut.{
  text_chunk, piece_chunk, whole_call, pause, line_of, numbered_pieces, nothing_sent, piece_sent,
  pieces_of, text_sent, Event, texts_of, numbered_calls,
}
use marcus.Gateway.Stream.{
  take_chunk, usage_after, add_fragment, add_piece, Assembly, CallEntry, part_of, add_fragments,
  extended, no_entry, no_answer_yet, Line, follow, chunk, skipped,
}
use marcus.Gateway.Streaming.{join_parts, join_texts}
use marcus.Prelude.Json.{text, pos, int, Json}

abbrev pub assembled : List Json → List (Json × CallEntry) → Assembly
assembled parts entries = record (no_answer_yet) { content_parts = parts; entries = entries }

text_step :
    (s : String) (parts : List Json) (entries : List (Json × CallEntry))
    → take_chunk (text_chunk s) (assembled parts entries)
      ≡ (assembled (parts ++ part_of (text s)) entries, none)
unfolding take_chunk usage_after add_fragments
text_step s parts entries = refl

kept_text : (s : String) → text_of (or_json (text s) (text "")) ≡ got s
kept_text s = elim (Bool-cases (s == "")) [
  | inl empty ↦ rw (==-true s "" empty) refl
  | inr filled ↦ rw filled refl
]

piece_step :
    (i : ℕ) (p : CallEntry) (parts : List Json) (entries : List (Json × CallEntry))
    → take_chunk (piece_chunk i p) (assembled parts entries)
      ≡ (assembled parts (add_piece (int (pos i)) p entries), none)
unfolding take_chunk usage_after add_fragments add_fragment
piece_step i p parts entries =
    rw (kept_text p.entry_id, kept_text p.entry_name, kept_text p.entry_arguments, append-nil) refl

unfoldable pub text_parts : List String → List Json
text_parts [] = []
text_parts (s ∷ ss) = part_of (text s) ++ text_parts ss

-- The numbers of the entries are below `i`.
unfoldable pub Below : ℕ → List (Json × CallEntry) → Type 0
Below i entries = All (λ entry. (n : ℕ) × (entry.0 ≡ int (pos n)) × (n < i)) entries

add_piece-new :
    (i : ℕ) (p : CallEntry) (entries : List (Json × CallEntry))
    → Below i entries
    → add_piece (int (pos i)) p entries ≡ entries ++ (int (pos i), extended no_entry p) ∷ []
unfolding Below add_piece
add_piece-new i p [] h = refl
add_piece-new i p ((k, e) ∷ entries) ((n, is_number, less), rest) =
    rw is_number (ground (arith, add_piece-new i p entries rest, less))

add_piece-again :
    (i : ℕ) (p e : CallEntry) (entries : List (Json × CallEntry))
    → Below i entries
    → add_piece (int (pos i)) p (entries ++ (int (pos i), e) ∷ [])
      ≡ entries ++ (int (pos i), extended e p) ∷ []
unfolding Below add_piece
add_piece-again i p e [] h = ground arith
add_piece-again i p e ((k, e') ∷ entries) ((n, is_number, less), rest) =
    rw is_number (ground (arith, add_piece-again i p e entries rest, less))

-- The entries of whole calls, numbered from `i`.
unfoldable pub whole_entries : ℕ → List (CallEntry × List CallEntry) → List (Json × CallEntry)
whole_entries i [] = []
whole_entries i (c ∷ cs) = (int (pos i), whole_call c) ∷ whole_entries (suc i) cs

Below-suc :
    (i : ℕ) (e : CallEntry) (entries : List (Json × CallEntry))
    → Below i entries
    → Below (suc i) (entries ++ (int (pos i), e) ∷ [])
unfolding Below
Below-suc i e [] h = ((i, refl, omega arith), tt)
Below-suc i e (x ∷ entries) ((n, is_number, less), rest) =
    ((n, is_number, omega (arith, less)), Below-suc i e entries rest)

-- What `+=` makes of an entry, piece by piece.
gathered : CallEntry → List CallEntry → CallEntry
gathered e [] = e
gathered e (p ∷ ps) = gathered (extended e p) ps

gathered-whole_call : (e : CallEntry) (ps : List CallEntry) → gathered e ps ≡ whole_call (e, ps)
unfolding gathered
gathered-whole_call e [] =
    rw (append-nil_text e.entry_id, append-nil_text e.entry_name, append-nil_text e.entry_arguments)
      refl
gathered-whole_call e (p ∷ ps) =
    gathered-whole_call (extended e p) ps
    ∙ rw
        (
          append_assoc_text e.entry_id p.entry_id (join_texts (map (λ q. q.entry_id) ps)),
          append_assoc_text e.entry_name p.entry_name (join_texts (map (λ q. q.entry_name) ps)),
          append_assoc_text e.entry_arguments p.entry_arguments
              (join_texts (map (λ q. q.entry_arguments) ps)),
        )
        refl

gathered-first :
    (p : CallEntry) (ps : List CallEntry) → gathered (extended no_entry p) ps ≡ whole_call (p, ps)
gathered-first p ps =
    gathered-whole_call (extended no_entry p) ps
    ∙ rw (nil-append p.entry_id, nil-append p.entry_name, nil-append p.entry_arguments) refl

follow_skipped :
    (breaks : Bool) (lines : List Line) (a : Assembly)
    → follow breaks (skipped ∷ lines) a ≡ follow breaks lines a
unfolding follow
follow_skipped breaks lines a = refl

pub follow-pause :
    (breaks : Bool) (n : ℕ) (lines : List Line) (a : Assembly)
    → follow breaks (pause n lines) a ≡ follow breaks lines a
follow-pause breaks zero lines a = refl
follow-pause breaks (suc n) lines a =
    follow_skipped breaks (pause n lines) a ∙ follow-pause breaks n lines a

pub follow_step :
    (breaks : Bool) (v : Json) (lines : List Line) (a b : Assembly)
    → take_chunk v a ≡ (b, none)
    → follow breaks (chunk v ∷ lines) a ≡ follow breaks lines b
unfolding follow
follow_step breaks v lines a b h =
    rw (h, follow) (ap (λ (o : Assembly × Option Raised). follow breaks lines o.0) h)

-- The entries once all the pieces have come.
unfoldable pub added : List (ℕ × CallEntry) → List (Json × CallEntry) → List (Json × CallEntry)
added [] entries = entries
added ((i, p) ∷ pieces) entries = added pieces (add_piece (int (pos i)) p entries)

-- In whatever order the texts and the pieces come.
pub follow-sent :
    (breaks : Bool) (events : List Event) (rest : List Line) (parts : List Json)
    (entries : List (Json × CallEntry))
    → follow breaks (map line_of events ++ rest) (assembled parts entries)
      ≡ follow breaks rest
          (assembled (parts ++ text_parts (texts_of events)) (added (pieces_of events) entries))
unfolding text_parts added
follow-sent breaks [] rest parts entries = rw append-nil refl
follow-sent breaks (text_sent s ∷ events) rest parts entries =
    follow_step breaks (text_chunk s) (map line_of events ++ rest) _ _ (text_step s parts entries)
    ∙ follow-sent breaks events rest (parts ++ part_of (text s)) entries
    ∙ rw append_assoc refl
follow-sent breaks (piece_sent i p ∷ events) rest parts entries =
    follow_step breaks (piece_chunk i p) (map line_of events ++ rest) _ _
      (piece_step i p parts entries)
    ∙ follow-sent breaks events rest parts (add_piece (int (pos i)) p entries)
follow-sent breaks (nothing_sent ∷ events) rest parts entries =
    follow_skipped breaks (map line_of events ++ rest) (assembled parts entries)
    ∙ follow-sent breaks events rest parts entries

added-pieces :
    (i : ℕ) (ps : List CallEntry) (rest : List (ℕ × CallEntry)) (e : CallEntry)
    (entries : List (Json × CallEntry))
    → Below i entries
    → added (numbered_pieces i ps ++ rest) (entries ++ (int (pos i), e) ∷ [])
      ≡ added rest (entries ++ (int (pos i), gathered e ps) ∷ [])
unfolding gathered added
added-pieces i [] rest e entries below = refl
added-pieces i (p ∷ ps) rest e entries below =
    ap (added (numbered_pieces i ps ++ rest)) (add_piece-again i p e entries below)
    ∙ added-pieces i ps rest (extended e p) entries below

pub added-numbered :
    (i : ℕ) (cs : List (CallEntry × List CallEntry)) (entries : List (Json × CallEntry))
    → Below i entries
    → added (numbered_calls i cs) entries ≡ entries ++ whole_entries i cs
unfolding whole_entries added
added-numbered i [] entries below = rw append-nil refl
added-numbered i ((p, ps) ∷ cs) entries below =
    ap (added (numbered_pieces i ps ++ numbered_calls (suc i) cs)) (add_piece-new i p entries below)
    ∙ added-pieces i ps (numbered_calls (suc i) cs) (extended no_entry p) entries below
    ∙ ap (λ (e : CallEntry). added (numbered_calls (suc i) cs) (entries ++ (int (pos i), e) ∷ []))
        (gathered-first p ps)
    ∙ added-numbered (suc i) cs _ (Below-suc i (whole_call (p, ps)) entries below)
    ∙ rw append_assoc refl

pub join-text_parts : (ss : List String) → join_parts (text_parts ss) ≡ got (join_texts ss)
unfolding text_parts
join-text_parts [] = refl
join-text_parts (s ∷ ss) = elim (Bool-cases (s == "")) [
  | inl empty ↦
      rw (==-true s "" empty, join-text_parts ss) (ap got (sym (nil-append (join_texts ss))))
  | inr filled ↦ rw (filled, join-text_parts ss) refl
]
