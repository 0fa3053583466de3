-- ===== src/Array/Tests.antt =====
-- The array at concrete inputs.
use malincam.Prelude.{ℕ, ◌+◌, ◌≤◌, ◌≡◌, ◌≢◌, refl, Option, some, List, [], ◌∷◌, arith}
use malincam.Prelude.Outcome.{done, fault}
use malincam.Array.{Block, Array, reserve, append, destroy}
use malincam.Array.Laws.{IsValid, items, reserve_lem, append_lem, destroy-freed}

-- Full: two items in two slots.
abbrev full_array : Array ℕ
full_array = record {
  block = Block.live (some 7 ∷ some 8 ∷ []);
  size = 2;
  capacity = 2;
  item_size = 4;
}

full_array-IsValid : IsValid full_array
full_array-IsValid = (refl, omega arith, omega arith)

reserve_lem_example :
    (b : Array ℕ) × (reserve full_array 5 ≡ done b)
    × IsValid b
    × (items b ≡ items full_array)
    × (b.size ≡ 2)
    × (5 ≤ b.capacity)
    × (2 ≤ b.capacity)
reserve_lem_example = reserve_lem full_array 5 full_array-IsValid

append_lem_example :
    (b : Array ℕ) × (append full_array (some 9) ≡ done (2, b))
    × IsValid b
    × (items b ≡ some 7 ∷ some 8 ∷ some 9 ∷ [])
    × (b.size ≡ 2 + 1)
append_lem_example = append_lem full_array 9 full_array-IsValid

abbrev destroyed : Array ℕ
destroyed = record { block = Block.freed; size = 0; capacity = 0; item_size = 4 }

live-ne-null : {slots : List (Option ℕ)} → Block.live slots ≢ Block.null
live-ne-null h = cc

destroy_full : destroy full_array ≡ done destroyed
unfolding destroy
destroy_full = refl

destroy-freed_example : (destroy destroyed ≡ fault) × (reserve destroyed (0 + 1) ≡ fault)
destroy-freed_example = destroy-freed full_array destroyed 0 live-ne-null destroy_full
