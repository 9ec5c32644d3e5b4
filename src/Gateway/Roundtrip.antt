-- ===== src/Gateway/Roundtrip.antt =====
-- An answer that has been cut into the chunks of a stream is put together as it was.
use marcus.Prelude.{List, ◌∷◌, Bool, none, some, Option}
use marcus.Gateway.{Trial, Codec, got, ◌>>=◌, Raised}
use marcus.Gateway.Answer.{Usage, ModelAnswer, AnswerCall}
use marcus.Gateway.Cut.{body_of, CutAnswer, pause, sent_texts}
use marcus.Gateway.Recut.{whole_entries, assembled, text_parts}
use marcus.Gateway.Stream.{rest_taken, Assembly, done, follow}
use marcus.Gateway.Streaming.{text_or_null, join_texts}
use marcus.Prelude.Json.{text, end, null, Json}

module _ (codec : Codec) where
  -- The answer that the pieces make, whatever the usage is.
  abbrev answer_of : CutAnswer → List AnswerCall → Usage → ModelAnswer
  answer_of cut calls u = record {
    answer_content = text_or_null (join_texts (sent_texts cut));
    answer_calls = calls;
    finish_reason = cut.cut_reason;
    usage = u;
    model = null;
    raw = null;
    provided = end;
  }

  -- What `_parse_response` makes of the body.
  abbrev parsed_as : CutAnswer → List AnswerCall → Usage → ModelAnswer
  parsed_as cut calls u = record (answer_of cut calls u) { model = text ""; raw = body_of cut }

  -- The assembly once all but the usage has been read.
  abbrev all_read : CutAnswer → Assembly
  all_read cut = record (assembled (text_parts (sent_texts cut)) (whole_entries 0 cut.cut_calls)) {
    stream_reason = cut.cut_reason;
  }

  -- The assembly at the end, by what the usage is.
  abbrev usage_taken : CutAnswer → Trial Usage → Assembly × Option Raised
  usage_taken cut u =
      rest_taken (all_read cut) (u >>= λ w. got (record (all_read cut) { stream_usage = w }))

  abbrev before_last : CutAnswer → Assembly
  before_last cut = assembled (text_parts (sent_texts cut)) (whole_entries 0 cut.cut_calls)

  abbrev after_last : CutAnswer → Bool → Assembly × Option Raised → Assembly × Option Raised
  after_last cut breaks taken = elim taken.1 [
    | none ↦ follow breaks (pause cut.pauses (done ∷ cut.trailing)) taken.0
    | some e ↦ (taken.0, some e)
  ]
