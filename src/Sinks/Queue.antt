-- ===== src/Sinks/Queue.antt =====
-- sinks/dlq.go and sinks/dlq_memory.go: the queue of messages that no attempt delivered. The
-- identifier that a push draws at random and the reading of the clock are arguments.
use parsec.Common.{
  ℕ, ◌+◌, Bool, ◌||◌, ◌&&◌, List, [], ◌∷◌, ◌++◌, Option, none, some, if◌then◌else◌, ltb, length,
  take, Text, text_eq, ℤ, pos, pos_part, ltb_ℤ,
}
use parsec.Errors.{Result, ok, err, invalid_argument, sink_config}

-- Recipients and messages are payloads of a type `M`.
pub record DlqItem (M : Type 0) : Type 0 where
  pub id : Text
  pub sink : Text
  pub at_time : ℕ
  pub recipient : M
  pub message : M
  pub attempts : ℕ
  pub last_error : Text

-- `MemoryDLQ`, but for the lookup, which `Replay` takes as an argument.
pub record MemoryDlq (M : Type 0) : Type 0 where
  pub items : List (DlqItem M)

module _ {M : Type 0} where
  -- `MemoryDLQ.Push`
  unfoldable pub push : Text → DlqItem M → MemoryDlq M → MemoryDlq M
  push new_dlq_id item m =
      let item' = record item { id = if text_eq item.id [] then new_dlq_id else item.id } in
      record { items = m.items ++ item' ∷ [] }

  -- `sink == "" || it.Sink == sink`
  abbrev pub is_wanted : Text → DlqItem M → Bool
  is_wanted sink it = text_eq sink [] || text_eq it.sink sink

  -- The loop of `MemoryDLQ.Items`.
  unfoldable pub wanted : Text → List (DlqItem M) → List (DlqItem M)
  wanted sink [] = []
  wanted sink (it ∷ items) =
      let rest = wanted sink items in if is_wanted sink it then it ∷ rest else rest

  -- `sort.Slice` by `out[i].At.After(out[j].At)`: one of the orders that it may return.
  unfoldable pub place : DlqItem M → List (DlqItem M) → List (DlqItem M)
  place it [] = it ∷ []
  place it (x ∷ xs) =
      let rest = place it xs in if ltb it.at_time x.at_time then x ∷ rest else it ∷ x ∷ xs

  unfoldable pub newest_first : List (DlqItem M) → List (DlqItem M)
  newest_first [] = []
  newest_first (it ∷ items) = place it (newest_first items)

  -- `MemoryDLQ.Items`
  unfoldable pub items_of : Text → ℤ → MemoryDlq M → List (DlqItem M)
  items_of sink limit m =
      let out = newest_first (wanted sink m.items) in
      if ltb_ℤ (pos 0) limit && ltb (pos_part limit) (length out)
      then take (pos_part limit) out
      else out

  -- The loop of `MemoryDLQ.Count`.
  unfoldable pub count_of : Text → List (DlqItem M) → ℕ
  count_of sink [] = 0
  count_of sink (it ∷ items) =
      let rest = count_of sink items in if text_eq it.sink sink then rest + 1 else rest

  -- `MemoryDLQ.Count`
  unfoldable pub count : Text → MemoryDlq M → ℕ
  count sink m = if text_eq sink [] then length m.items else count_of sink m.items

  -- The loop of `MemoryDLQ.Discard`.
  unfoldable pub without : Text → List (DlqItem M) → List (DlqItem M)
  without id [] = []
  without id (it ∷ items) =
      let rest = without id items in if text_eq it.id id then items else it ∷ rest

  -- `MemoryDLQ.Discard`
  unfoldable pub discard : Text → MemoryDlq M → MemoryDlq M
  discard id m = record { items = without id m.items }

  -- The loop of `MemoryDLQ.Replay`.
  unfoldable pub find_item : Text → List (DlqItem M) → Option (DlqItem M)
  find_item id [] = none
  find_item id (it ∷ items) =
      let rest = find_item id items in if text_eq it.id id then some it else rest

  -- `MemoryDLQ.Replay` up to the call of the sink: the sink, and the item to send. The argument is
  -- the registry's lookup.
  unfoldable pub replay :
      {S : Type 0} → Option (Text → Option S) → Text → MemoryDlq M → Result (S × DlqItem M)
  replay lookup id m = elim (find_item id m.items) [
    | none ↦ err invalid_argument
    | some found ↦ elim lookup [
      | none ↦ err sink_config
      | some look ↦ elim (look found.sink) [ none ↦ err sink_config | some sink ↦ ok (sink, found) ]
    ]
  ]
