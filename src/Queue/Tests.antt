-- ===== src/Queue/Tests.antt =====
-- The queue at concrete inputs.
use malincam.Prelude.{ℕ, pos, ◌+◌, ◌≡◌, refl, none, some, [], ◌∷◌, ◌++◌, arith, get_or}
use malincam.Prelude.Outcome.{done}
use malincam.Abi.{enomem}
use malincam.Array.{Block}
use malincam.Queue.{Queue, push, pop, get_size, get_free}
use malincam.Queue.Laws.{IsValid, contents, slots_of, push_lem, pop_rotates}
use malincam.Queue.Full.{after, after_full}

-- One item of three, its front at the last slot.
abbrev turned : Queue ℕ
turned = record {
  array = record {
    block = Block.live (none ∷ none ∷ some 7 ∷ []);
    size = 1;
    capacity = 3;
    item_size = 4;
  };
  front = 2;
}

turned-IsValid : IsValid turned
turned-IsValid = (refl, omega arith, omega arith)

push_lem_example :
    (r : Queue ℕ) × (push turned 8 ≡ done (pos (1 + 1), r))
    × IsValid r
    × (contents r ≡ contents turned ++ some 8 ∷ [])
    × (r.array.size ≡ 1 + 1)
    × (r.array.capacity ≡ 3)
    × (r.front ≡ 2)
push_lem_example = push_lem turned 8 turned-IsValid (omega arith)

abbrev full_queue : Queue ℕ
full_queue = record {
  array = record {
    block = Block.live (some 9 ∷ some 7 ∷ some 8 ∷ []);
    size = 3;
    capacity = 3;
    item_size = 4;
  };
  front = 1;
}

full_queue-IsValid : IsValid full_queue
full_queue-IsValid = (refl, omega arith, omega arith)

pop_rotates_example :
    ((pop full_queue).0 ≡ some 1)
    × (get_or (slots_of full_queue.array.block) 1 none ≡ some 7)
    × IsValid (pop full_queue).1
    × (contents (pop full_queue).1 ≡ (some 8 ∷ some 9 ∷ []) ++ some 7 ∷ [])
    × ((pop full_queue).1.array.size ≡ 3)
    × ((pop full_queue).1.array ≡ full_queue.array)
pop_rotates_example =
    pop_rotates full_queue (some 7) (some 8 ∷ some 9 ∷ []) full_queue-IsValid refl refl

after_full_example :
    (r : Queue ℕ) × (after (none ∷ none ∷ some 4 ∷ []) full_queue ≡ done r)
    × (get_size r ≡ get_size full_queue)
    × (get_free r ≡ 0)
    × (push r 5 ≡ done (pos enomem, r))
after_full_example = after_full (none ∷ none ∷ some 4 ∷ []) full_queue 5 refl
