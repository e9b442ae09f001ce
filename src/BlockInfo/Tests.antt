-- ===== src/BlockInfo/Tests.antt =====
-- Runs of the table of recent blocks and its theorems at concrete inputs.
use wax_system_contracts.Prelude.{
  ℕ, ◌+◌, ◌-◌, ◌*◌, ◌/◌, ◌≡◌, ◌≤◌, ◌<◌, refl, ok, some, arith, List, [], ◌∷◌,
}
use wax_system_contracts.Prelude.Table
use wax_system_contracts.BlockInfo.{
  Blocks, BlockInfoRecord, BlockBatchInfo, no_error, latest, batch_from,
  get_latest_block_batch_info, add_to_blockinfo_table, block_height_from_id, prune,
}
use wax_system_contracts.BlockInfo.Window.{IsKeyed, add_keeps_window}
use wax_system_contracts.BlockInfo.Batch.{starts_at, batch_sound}

abbrev row : ℕ → BlockInfoRecord
row n = record { version = 0; block_height = n; block_timestamp = 500 * n }

abbrev blocks : Blocks
blocks = (300, row 300) ∷ (301, row 301) ∷ (305, row 305) ∷ []

-- Block 311 follows block 310, whose identifier starts with the bytes 0, 0, 1, 54.
abbrev id : List ℕ
id = 0 ∷ 0 ∷ 1 ∷ 54 ∷ 9 ∷ []

abbrev blocks_after : Blocks
blocks_after = (305, row 305) ∷ (311, row 311) ∷ []

adds : add_to_blockinfo_table id 155500 blocks ≡ ok blocks_after
unfolding add_to_blockinfo_table block_height_from_id prune Table.find Table.set
adds = refl

abbrev batch : BlockBatchInfo
batch = record {
  batch_start_height = 305;
  batch_start_timestamp = 152500;
  batch_current_end_height = 311;
  batch_current_end_timestamp = 155500;
}

finds :
    get_latest_block_batch_info 5 20 blocks_after
    ≡ record { result = some batch; error_code = no_error }
unfolding get_latest_block_batch_info latest batch_from Table.find
finds = refl

blocks-IsKeyed : IsKeyed blocks
blocks-IsKeyed = (refl, (refl, (refl, tt)))

add_keeps_window_example :
    IsKeyed blocks_after × (Table.find 305 blocks_after ≡ Table.find 305 blocks)
unfolding block_height_from_id
add_keeps_window_example =
    add_keeps_window id 155500 305 blocks blocks_after blocks-IsKeyed adds (omega arith)
      (omega arith)

batch_sound_example :
    (end : BlockInfoRecord) × (latest blocks_after ≡ some end)
    × ((get_latest_block_batch_info 5 20 blocks_after).error_code ≡ no_error)
    × (311 ≡ end.block_height)
    × (155500 ≡ end.block_timestamp)
    × (305 ≡ 5 + (end.block_height - 5) / 20 * 20)
    × (305 ≤ end.block_height)
    × (end.block_height < 305 + 20)
    × (some 152500 ≡ starts_at 305 end blocks_after)
unfolding get_latest_block_batch_info latest batch_from Table.find
batch_sound_example = batch_sound 5 20 blocks_after batch refl
