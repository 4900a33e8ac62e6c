-- ===== src/Envelope.antt =====
-- envelope/envelope.go: the fields of an envelope and their check, the numbering of a producer's
-- messages, and the detection of gaps by a subscriber. JSON is a parameter.
pub mod Numbering
pub mod Accounting
pub mod Checks
use parsec.Common.{
  ℕ, zero, suc, ◌+◌, ◌-◌, ◌*◌, ◌^◌, Bool, true, false, not, ◌||◌, ◌&&◌, List, [], ◌∷◌, Option, none,
  some, if◌then◌else◌, ltb, length, Text, codes, text_eq, Map, lookup, insert, ℤ, pos, negsuc,
  pos_part, neg_part, sub_ℕ, ltb_ℤ, is_zero,
}

-- The constants of `ProducerKind`.
abbrev pub producer_user : Text
producer_user = codes "user"

abbrev pub producer_agent : Text
producer_agent = codes "agent"

abbrev pub producer_service : Text
producer_service = codes "service"

-- `ProducerKind.Valid`
unfoldable pub is_valid_kind : Text → Bool
is_valid_kind k = text_eq k producer_user || text_eq k producer_agent || text_eq k producer_service

pub record Producer : Type 0 where
  pub id : Text
  pub kind : Text

pub record Causation : Type 0 where
  pub parent_channel : Text
  pub parent_sequence : ℤ

-- `Causation.IsRoot`
unfoldable pub is_root : Causation → Bool
is_root c = text_eq c.parent_channel [] && is_zero c.parent_sequence

-- The time is `none` where it is the zero time.
pub record Envelope : Type 0 where
  pub channel : Text
  pub sequence : ℤ
  pub produced_at : Option ℕ
  pub producer : Producer
  pub aspect : Text
  pub schema_ref : Text
  pub causation : Causation
  pub payload : Text

-- The sentinel errors, and those of the JSON encoder.
pub data EnvelopeError : Type 0 where
  channel_required aspect_required producer_required producer_kind_unknown : EnvelopeError
  sequence_non_positive produced_at_zero too_large marshal_failed : EnvelopeError

-- `Envelope.Validate`; `none` is a nil error.
unfoldable pub validate : Envelope → Option EnvelopeError
validate e =
    if text_eq e.channel []
    then some channel_required
    else if text_eq e.aspect []
    then some aspect_required
    else if text_eq e.producer.id []
    then some producer_required
    else if not (is_valid_kind e.producer.kind)
    then some producer_kind_unknown
    else if not (ltb_ℤ (pos 0) e.sequence)
    then some sequence_non_positive
    else elim e.produced_at [ none ↦ some produced_at_zero | some at_time ↦ none ]

-- `MaxEnvelopeSize`
abbrev pub max_envelope_size : ℕ
max_envelope_size = 64 * 1024

-- `Envelope.Encode`; the argument is `json.Marshal`.
unfoldable pub encode : (Envelope → Option Text) → Envelope → Option Text × Option EnvelopeError
encode marshal e = elim (marshal e) [
  | none ↦ (none, some marshal_failed)
  | some b ↦ if ltb max_envelope_size (length b) then (none, some too_large) else (some b, none)
]

-- A sum or a difference of two int64 values, as int64 holds it.
abbrev pub wrap_int64 : ℤ → ℤ
wrap_int64 (pos n) = if ltb n (2 ^ 63) then pos n else negsuc (2 ^ 64 - 1 - n)
wrap_int64 (negsuc n) = if ltb n (2 ^ 63) then negsuc n else pos (2 ^ 64 - 1 - n)

-- `atomic.AddInt64(p, 1)`
abbrev pub add_one : ℤ → ℤ
add_one n = wrap_int64 (sub_ℕ (pos_part n + 1) (neg_part n))

pub record SequenceTracker : Type 0 where
  pub state : Map ℤ

-- The counter that `Next` finds or makes.
abbrev pub counter : Option ℤ → ℤ
counter none = pos 0
counter (some v) = v

-- `SequenceTracker.Next`
unfoldable pub next : Text → SequenceTracker → SequenceTracker × ℤ
next channel t =
    let v = add_one (counter (lookup channel t.state)) in
    (record { state = insert channel v t.state }, v)

-- `SequenceTracker.Peek`
unfoldable pub peek : Text → SequenceTracker → ℤ
peek channel t = counter (lookup channel t.state)

-- The loops of `Snapshot` and `Restore`.
unfoldable pub copied : Map ℤ → Map ℤ
copied [] = []
copied ((k, v) ∷ m) = insert k v (copied m)

-- `SequenceTracker.Snapshot`
unfoldable pub snapshot : SequenceTracker → Map ℤ
snapshot t = copied t.state

-- `SequenceTracker.Restore`
unfoldable pub restore : Map ℤ → SequenceTracker → SequenceTracker
restore state t = record { state = copied state }

pub record GapKey : Type 0 where
  pub channel : Text
  pub producer : Text

-- `==` on keys
abbrev pub same_key : GapKey → GapKey → Bool
same_key j k = text_eq j.channel k.channel && text_eq j.producer k.producer

pub record GapDetector : Type 0 where
  pub seen : List (GapKey × ℤ)

-- `prev, ok := d.seen[k]`
unfoldable pub seen_of : GapKey → List (GapKey × ℤ) → Option ℤ
seen_of k [] = none
seen_of k ((j, v) ∷ m) = let rest = seen_of k m in if same_key j k then some v else rest

-- `d.seen[k] = v`
unfoldable pub set_seen : GapKey → ℤ → List (GapKey × ℤ) → List (GapKey × ℤ)
set_seen k v [] = (k, v) ∷ []
set_seen k v ((j, w) ∷ m) =
    let rest = set_seen k v m in if same_key j k then (k, v) ∷ m else (j, w) ∷ rest

-- `Result`
pub record Finding : Type 0 where
  pub gap : ℤ
  pub duplicate : Bool
  pub first : Bool

-- `sequence - prev - 1`
abbrev pub gap_between : ℤ → ℤ → ℤ
gap_between prev sequence =
    wrap_int64 (sub_ℕ (pos_part sequence + neg_part prev) (pos_part prev + neg_part sequence + 1))

-- `GapDetector.Observe`
unfoldable pub observe : Text → Text → ℤ → GapDetector → GapDetector × Finding
observe channel producer sequence d =
    let k : GapKey = record { channel = channel; producer = producer } in
    let d' : GapDetector = record { seen = set_seen k sequence d.seen } in
    elim (seen_of k d.seen) [
      | none ↦ (d', record { gap = pos 0; duplicate = false; first = true })
      | some prev ↦
          if not (ltb_ℤ prev sequence)
          then (d, record { gap = pos 0; duplicate = true; first = false })
          else (d', record { gap = gap_between prev sequence; duplicate = false; first = false })
    ]

-- `GapDetector.HighWater`
unfoldable pub high_water : Text → Text → GapDetector → ℤ
high_water channel producer d =
    counter (seen_of (record { channel = channel; producer = producer }) d.seen)
