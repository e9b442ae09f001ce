-- ===== src/BlockInfo/Window.antt =====
-- What the rolling window keeps.
use wax_system_contracts.Prelude.{
  ℕ, ◌+◌, ◌%◌, ◌^◌, ◌≡◌, ◌<◌, refl, some, ok, List, [], ◌∷◌, arith, ◌==◌, if◌then◌else◌, zero, suc,
}
use wax_system_contracts.Prelude.Table
use wax_system_contracts.BlockInfo.{
  Blocks, BlockInfoRecord, prune, last_prunable_block_height, add_to_blockinfo_table,
  block_height_from_id,
}

-- Each row stands under its height.
abbrev pub IsKeyed : Blocks → Type 0
IsKeyed [] = Unit
IsKeyed ((k, r) ∷ t) = (k ≡ r.block_height) × IsKeyed t

set-IsKeyed :
    (k : ℕ) (r : BlockInfoRecord) (t : Blocks)
    → k ≡ r.block_height
    → IsKeyed t
    → IsKeyed (Table.set k r t)
unfolding Table.set
set-IsKeyed k r [] e keyed = (e, tt)
set-IsKeyed k r ((j, w) ∷ t) e keyed = ground (arith, set-IsKeyed k r t e keyed.1)

prune-IsKeyed : (p n : ℕ) (t : Blocks) → IsKeyed t → IsKeyed (prune p n t)
unfolding prune
prune-IsKeyed p zero t keyed = keyed
prune-IsKeyed p (suc n) [] keyed = tt
prune-IsKeyed p (suc n) ((j, w) ∷ t) keyed = ground (arith, prune-IsKeyed p n t keyed.1)

find-prune :
    (p n k : ℕ) (t : Blocks) → IsKeyed t → p < k → Table.find k (prune p n t) ≡ Table.find k t
unfolding prune Table.find
find-prune p zero k t keyed later = refl
find-prune p (suc n) k [] keyed later = refl
find-prune p (suc n) k ((j, w) ∷ t) keyed later = ground (arith, find-prune p n k t keyed.1 later)

-- Recording a block adds its row and keeps every other row of the window, the blocks from nine
-- before it on; rows stand under their heights.
pub add_keeps_window :
    (id : List ℕ) (time k : ℕ) (t t' : Blocks)
    → IsKeyed t
    → add_to_blockinfo_table id time t ≡ ok t'
    → (block_height_from_id id + 1) % 2 ^ 32 < k + 10
    → 0 < k
    → IsKeyed t'
      × (Table.find k t' ≡ (
          if (block_height_from_id id + 1) % 2 ^ 32 == k
          then some (record { version = 0; block_height = k; block_timestamp = time })
          else Table.find k t))
unfolding add_to_blockinfo_table
add_keeps_window id time k t t' keyed h recent positive =
    let height : ℕ = (block_height_from_id id + 1) % 2 ^ 32 in
    let row : BlockInfoRecord = record {
      version = 0;
      block_height = height;
      block_timestamp = time;
    } in
    let t'_is : t' ≡ prune (last_prunable_block_height height) 2 (Table.set height row t) =
      ground arith in
    let set_keyed = set-IsKeyed height row t refl keyed in
    let kept =
      find-prune (last_prunable_block_height height) 2 k (Table.set height row t) set_keyed
        (omega arith) in
    rw t'_is (
      prune-IsKeyed (last_prunable_block_height height) 2 (Table.set height row t) set_keyed,
      ground (arith, kept, Table.find-set height k row t),
    )
