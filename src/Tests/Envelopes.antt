-- ===== src/Tests/Envelopes.antt =====
-- The theorems on envelopes, their numbers and the gaps between them.
use parsec.Common.{
  ℕ, ◌+◌, List, [], ◌∷◌, some, none, ◌≡◌, ◌∙◌, refl, arith, All, Text, codes, pos, Text-discrete,
  Bool-cases, lookup,
}
use parsec.Envelope.Accounting.{observe_all, missed, fresh, gaps_add_up}
use parsec.Envelope.Numbering.{deliver, IsInOrder, deliver-IsInOrder, restore-snapshot}
use parsec.Envelope.{
  Envelope, validate, GapKey, GapDetector, seen_of, set_seen, is_valid_kind, observe,
  SequenceTracker, peek, snapshot, restore,
}

abbrev news : GapKey
news = record { channel = codes "news"; producer = codes "p" }

abbrev talk : GapKey
talk = record { channel = codes "talk"; producer = codes "p" }

abbrev detector : GapDetector
detector = record { seen = (news, pos 3) ∷ [] }

abbrev sequences : List (GapKey × ℕ)
sequences = (news, 4) ∷ (talk, 9) ∷ (news, 8) ∷ (news, 7) ∷ []

gaps_add_up_example :
    let (d', findings) = observe_all sequences detector in
    seen_of news d'.seen ≡ some (pos (3 + missed news findings + fresh news findings))
unfolding seen_of
gaps_add_up_example =
    gaps_add_up news sequences 3 detector
      (omega arith, (omega arith, (omega arith, (omega arith, tt)))) refl

missed_three : missed news (observe_all sequences detector).1 ≡ 3
unfolding missed observe_all observe seen_of set_seen
missed_three = refl

abbrev sent_on : List Text
sent_on = codes "news" ∷ codes "talk" ∷ codes "news" ∷ []

deliver-IsInOrder_example :
    All IsInOrder (deliver (codes "p") sent_on (record { state = [] }) (record { seen = [] }))
deliver-IsInOrder_example = deliver-IsInOrder (codes "p") sent_on (omega arith)

abbrev tracker : SequenceTracker
tracker = record { state = (codes "news", pos 5) ∷ [] }

peeked : peek (codes "news") tracker ≡ pos 5
unfolding peek lookup Text-discrete Bool-cases
peeked = refl

restored : peek (codes "news") (restore (snapshot tracker) (record { state = [] })) ≡ pos 5
restored = (restore-snapshot (codes "news") tracker (record { state = [] })).0 ∙ peeked

abbrev envelope : Envelope
envelope = record {
  channel = codes "public:news";
  sequence = pos 1;
  produced_at = some 5;
  producer = record { id = codes "p"; kind = codes "agent" };
  aspect = codes "data";
  schema_ref = [];
  causation = record { parent_channel = []; parent_sequence = pos 0 };
  payload = [];
}

validates : validate envelope ≡ none
unfolding validate is_valid_kind
validates = refl
