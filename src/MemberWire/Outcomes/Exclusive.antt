-- ===== src/MemberWire/Outcomes/Exclusive.antt =====
-- What a response carries together.
use curator_agent_launcher.Base.{true, false, not, ◌&&◌, ◌||◌, ◌≡◌, Bytes, arith}
use curator_agent_launcher.MemberWire.Json.{Value, Members}
use curator_agent_launcher.MemberWire.Shapes.{at, is_nil, equals, reference, optional}
use curator_agent_launcher.MemberWire.Decode.{UntrustedRecord, ok}
use curator_agent_launcher.MemberWire.Decode.Shaped.{decode_exact}
use curator_agent_launcher.MemberWire.Outcomes.{
  outcome_valid, response_valid, decode_response, response_limit,
}

response_valid-outcome : (o : Members) → response_valid o ≡ true → outcome_valid o ≡ true
unfolding response_valid
response_valid-outcome o e = ground arith

response_valid-references :
    (o : Members)
    → response_valid o ≡ true
    → (optional reference (at o "result") && optional reference (at o "snapshot")) ≡ true
unfolding response_valid
response_valid-references o e = ground arith

outcome_valid-exclusive :
    (o : Members)
    → outcome_valid o ≡ true
    → ((is_nil (at o "error")
          || is_nil (at o "result") && is_nil (at o "reservation") && is_nil (at o "ack"))
        ≡ true)
      × ((is_nil (at o "result") || not (is_nil (at o "snapshot"))) ≡ true)
      × ((is_nil (at o "reservation") && is_nil (at o "ack")
            || equals (at o "outcome") "consumption")
          ≡ true)
unfolding outcome_valid
outcome_valid-exclusive o e = ground arith

referenced : (v : Value) → optional reference v ≡ true → is_nil v ≡ false → reference v ≡ true
unfolding optional
referenced v e f = ground arith

-- In a response that is accepted: with an error there is no result, no reservation and no ack; with a
-- result there is a snapshot; a reservation or an ack stands only with the outcome consumption; and a
-- result is a reference.
pub decode_response-exclusive :
    (raw : Bytes) (r : UntrustedRecord)
    → decode_response raw ≡ ok r
    → ((is_nil (at r.value "error")
          || is_nil (at r.value "result")
            && is_nil (at r.value "reservation")
            && is_nil (at r.value "ack"))
        ≡ true)
      × ((is_nil (at r.value "result") || not (is_nil (at r.value "snapshot"))) ≡ true)
      × ((is_nil (at r.value "reservation") && is_nil (at r.value "ack")
            || equals (at r.value "outcome") "consumption")
          ≡ true)
      × ((is_nil (at r.value "result") || reference (at r.value "result")) ≡ true)
unfolding decode_response optional
decode_response-exclusive raw r e =
    let shaped = (decode_exact raw response_limit response_valid r).0 e in
    let (a, b, c) = outcome_valid-exclusive r.value (response_valid-outcome r.value shaped.shape) in
    (a, b, c, ground (arith, response_valid-references r.value shaped.shape))
