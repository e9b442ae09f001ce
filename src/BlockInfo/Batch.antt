-- ===== src/BlockInfo/Batch.antt =====
-- The latest batch of blocks that `get_latest_block_batch_info` finds.
use wax_system_contracts.Prelude.{
  ℕ, ◌+◌, ◌-◌, ◌*◌, ◌/◌, ◌%◌, ◌≡◌, ◌≤◌, ◌<◌, ap, sym, subst, ◌∙◌, Option, none, some, arith, ◌==◌,
  if◌then◌else◌, inl, inr, Option-cases,
}
use wax_system_contracts.Prelude.Table
use wax_system_contracts.BlockInfo.{
  Blocks, BlockInfoRecord, BlockBatchInfo, no_error, latest, batch_from,
  get_latest_block_batch_info,
}

batch_bounds :
    (offset size end : ℕ)
    → 0 < size
    → offset ≤ end
    → (end - (end - offset) % size ≡ offset + (end - offset) / size * size)
      × (end - (end - offset) % size ≤ end)
      × (end < end - (end - offset) % size + size)
batch_bounds offset size end positive begun = (grind arith, grind arith, grind arith)

-- The time that a result gives for the start of the batch is the recorded one.
abbrev pub starts_at : ℕ → BlockInfoRecord → Blocks → Option ℕ
starts_at start end t =
    if start == end.block_height
    then some end.block_timestamp
    else elim (Table.find start t) [ none ↦ none | some first ↦ some first.block_timestamp ]

batch_from_sound :
    (start : ℕ) (end : BlockInfoRecord) (t : Blocks) (info : BlockBatchInfo)
    → (batch_from start end t).result ≡ some info
    → ((batch_from start end t).error_code ≡ no_error)
      × (info.batch_start_height ≡ start)
      × (info.batch_current_end_height ≡ end.block_height)
      × (info.batch_current_end_timestamp ≡ end.block_timestamp)
      × (some info.batch_start_timestamp ≡ starts_at start end t)
unfolding batch_from
batch_from_sound start end t info h = elim (Option-cases (Table.find start t)) [
  | inl missing ↦ (ground arith, ground arith, ground arith, ground arith, ground arith)
  | inr (first, found) ↦ (ground arith, ground arith, ground arith, ground arith, ground arith)
]

reaches_batch :
    (offset size : ℕ) (t : Blocks) (info : BlockBatchInfo)
    → (get_latest_block_batch_info offset size t).result ≡ some info
    → (end : BlockInfoRecord) × (latest t ≡ some end)
      × (0 < size)
      × (offset ≤ end.block_height)
      × (get_latest_block_batch_info offset size t
          ≡ batch_from (end.block_height - (end.block_height - offset) % size) end t)
unfolding get_latest_block_batch_info
reaches_batch offset size t info h = elim (Option-cases (latest t)) [
  | inl missing ↦ absurd (ground arith)
  | inr (end, found) ↦ (end, found, ground arith, ground arith, ground arith)
]

-- A result is about a batch that ends at the latest block, has at most `size` blocks and starts a
-- whole number of batches after the offset; both times are those of the blocks' rows, and the code
-- is that of success.
pub batch_sound :
    (offset size : ℕ) (t : Blocks) (info : BlockBatchInfo)
    → (get_latest_block_batch_info offset size t).result ≡ some info
    → (end : BlockInfoRecord) × (latest t ≡ some end)
      × ((get_latest_block_batch_info offset size t).error_code ≡ no_error)
      × (info.batch_current_end_height ≡ end.block_height)
      × (info.batch_current_end_timestamp ≡ end.block_timestamp)
      × (info.batch_start_height ≡ offset + (end.block_height - offset) / size * size)
      × (info.batch_start_height ≤ end.block_height)
      × (end.block_height < info.batch_start_height + size)
      × (some info.batch_start_timestamp ≡ starts_at info.batch_start_height end t)
batch_sound offset size t info h =
    let (end, found, positive, begun, same) = reaches_batch offset size t info h in
    let (whole, early, late) = batch_bounds offset size end.block_height positive begun in
    let (code, start_is, end_is, end_time, start_time) =
      batch_from_sound (end.block_height - (end.block_height - offset) % size) end t info
        (ap (λ r. r.result) (sym same) ∙ h) in
    (
      end,
      found,
      ap (λ r. r.error_code) same ∙ code,
      end_is,
      end_time,
      start_is ∙ whole,
      subst (λ x. x ≤ end.block_height) (sym start_is) early,
      subst (λ x. end.block_height < x + size) (sym start_is) late,
      subst (λ x. some info.batch_start_timestamp ≡ starts_at x end t) (sym start_is) start_time,
    )
