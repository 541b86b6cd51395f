-- ===== src/EventLog/Tests.antt =====
-- The event log at concrete inputs.
use boilerplate_express_ts.Prelude.{
  ◌≡◌, refl, none, some, List, [], ◌∷◌, codes, print, read, text_eq, Text, arith, replicate,
}
use boilerplate_express_ts.Prelude.Scan.{cut}
use boilerplate_express_ts.EventLog.{
  EventLog, StreamMessage, reset, malformed, create, append, since,
}
use boilerplate_express_ts.EventLog.Ring.{append_all}
use boilerplate_express_ts.EventLog.Resume.{answer, since-append_all}

abbrev log_of : Text → EventLog
log_of stream_id = record {
  slots = replicate 2 none;
  capacity = 2;
  stream_id = stream_id;
  latest_sequence = 0;
}

abbrev here : EventLog
here = log_of (codes "a1")

abbrev ticks : List (Text × Text)
ticks = (codes "tick", codes "1") ∷ (codes "tick", codes "2") ∷ (codes "tick", codes "3") ∷ []

abbrev second : StreamMessage
second = record { id = codes "a1:2"; event = codes "tick"; body = codes "2" }

malformed_cursor : since (some (codes "a1:2x")) here ≡ reset malformed
unfolding since cut text_eq read
malformed_cursor = refl

since-append_all_example :
    since (some (codes "a1:2")) (append_all ticks here).0 ≡ answer 2 2 (append_all ticks here).1
unfolding create append_all append print
since-append_all_example =
    since-append_all 2 (codes "a1") here ticks 1 second refl refl (omega arith)
