-- ===== src/BlockInfo.antt =====
-- The table of recent blocks in contracts/eosio.system: src/block_info.cpp and
-- include/eosio.system/block_info.hpp. The time of a block is the time_point that the toolkit makes
-- of its slot.
pub mod Window
pub mod Batch
mod Tests
use wax_system_contracts.Prelude.{
  ℕ, ◌+◌, ◌-◌, ◌*◌, ◌%◌, ◌^◌, Bool, true, false, ◌||◌, Option, none, some, Result, ok, ◌>>=◌, ◌>>◌,
  check, is_none, List, [], ◌∷◌, ltb, leb, ◌==◌, ◌!=◌, if◌then◌else◌, zero, suc, max,
}
use wax_system_contracts.Prelude.Table.{Table, find, set}

abbrev pub rolling_window_size : ℕ
rolling_window_size = 10

pub record BlockInfoRecord : Type 0 where
  pub version : ℕ
  pub block_height : ℕ
  pub block_timestamp : ℕ

abbrev pub Blocks : Type 0
Blocks = Table BlockInfoRecord

-- The first four bytes, big endian; an identifier has 32.
unfoldable pub block_height_from_id : List ℕ → ℕ
block_height_from_id (a ∷ b ∷ c ∷ d ∷ _) = a * 2 ^ 24 + b * 2 ^ 16 + c * 2 ^ 8 + d
block_height_from_id bytes = 0

-- The loop that erases from the front, with its count.
unfoldable pub prune : ℕ → ℕ → Blocks → Blocks
prune last_prunable zero t = t
prune last_prunable (suc count) [] = []
prune last_prunable (suc count) ((k, r) ∷ t) =
    if leb r.block_height last_prunable then prune last_prunable count t else (k, r) ∷ t

abbrev pub last_prunable_block_height : ℕ → ℕ
last_prunable_block_height new_block_height =
    max new_block_height rolling_window_size - rolling_window_size

unfoldable pub add_to_blockinfo_table : List ℕ → ℕ → Blocks → Result Blocks
add_to_blockinfo_table previous_block_id timestamp t =
    let new_block_height = (block_height_from_id previous_block_id + 1) % 2 ^ 32 in
    do
      check (is_none (find new_block_height t))
          "could not insert object, most likely a uniqueness constraint was violated"
      ok (
          prune (last_prunable_block_height new_block_height) 2 (
            set new_block_height
              (record { version = 0; block_height = new_block_height; block_timestamp = timestamp })
              t))

pub record BlockBatchInfo : Type 0 where
  pub batch_start_height : ℕ
  pub batch_start_timestamp : ℕ
  pub batch_current_end_height : ℕ
  pub batch_current_end_timestamp : ℕ

pub data ErrorCode : Type 0 where
  no_error invalid_input unsupported_version insufficient_data : ErrorCode

pub record LatestBlockBatchInfoResult : Type 0 where
  pub result : Option BlockBatchInfo
  pub error_code : ErrorCode

abbrev fails : ErrorCode → LatestBlockBatchInfoResult
fails code = record { result = none; error_code = code }

abbrev returns : BlockBatchInfo → LatestBlockBatchInfoResult
returns info = record { result = some info; error_code = no_error }

-- `--t.cend()`
unfoldable pub latest : Blocks → Option BlockInfoRecord
latest [] = none
latest ((k, r) ∷ []) = some r
latest (row ∷ next ∷ t) = latest (next ∷ t)

-- The batch that starts at a height and ends at the latest block.
unfoldable pub batch_from : ℕ → BlockInfoRecord → Blocks → LatestBlockBatchInfoResult
batch_from start end t =
    if start == end.block_height
    then returns (record {
      batch_start_height = start;
      batch_start_timestamp = end.block_timestamp;
      batch_current_end_height = end.block_height;
      batch_current_end_timestamp = end.block_timestamp;
    })
    else elim (find start t) [
      | none ↦ fails insufficient_data
      | some first ↦
          if first.block_height != start
          then fails insufficient_data
          else if first.version != 0
          then fails unsupported_version
          else returns (record {
            batch_start_height = start;
            batch_start_timestamp = first.block_timestamp;
            batch_current_end_height = end.block_height;
            batch_current_end_timestamp = end.block_timestamp;
          })
    ]

unfoldable pub get_latest_block_batch_info : ℕ → ℕ → Blocks → LatestBlockBatchInfoResult
unfolding batch_from
get_latest_block_batch_info offset batch_size t =
    if batch_size == 0 then fails invalid_input else elim (latest t) [
      | none ↦ fails insufficient_data
      | some end ↦
          if end.version != 0
          then fails unsupported_version
          else if ltb end.block_height offset
          then fails insufficient_data
          else batch_from (end.block_height - (end.block_height - offset) % batch_size) end t
    ]
