-- ===== src/Memory/BlockList/Links/Tests.antt =====
-- The theorems on the nodes of lab-3-memory/src/blocklist.c at a list of two blocks.
use snu_2021_fall_sys_prog.Common.{
  ◌≡◌, refl, true, none, some, List, [], ◌∷◌, arith, ◌==◌, if◌then◌else◌,
}
use snu_2021_fall_sys_prog.Common.Run.{Returns}
use snu_2021_fall_sys_prog.Memory.BlockList.{Block, find_from}
use snu_2021_fall_sys_prog.Memory.BlockList.Order.{IsSorted}
use snu_2021_fall_sys_prog.Memory.BlockList.Links.{Heap, update, insert_block, delete_block}
use snu_2021_fall_sys_prog.Memory.BlockList.Links.Sentinels.{head_block, tail_block}
use snu_2021_fall_sys_prog.Memory.BlockList.Links.Refinement.{Represents}
use snu_2021_fall_sys_prog.Memory.BlockList.Links.Maps.{
  Maps, is_found, insert_block-find_block, delete_block-find_block,
}

abbrev low_block : Block
low_block = record { ptr = 32; size = 8; flags = 0 }

abbrev high_block : Block
high_block = record { ptr = 96; size = 8; flags = 1 }

abbrev some_blocks : List Block
some_blocks = low_block ∷ high_block ∷ []

-- The sentinels are the nodes 0 and 1.
abbrev some_heap : Heap
some_heap = record {
  nodes =
      update
        (update
          (update
            (update (λ q. none) 0
              (some (record { prev = none; next = some 2; block = head_block })))
            1 (some (record { prev = some 3; next = none; block = tail_block })))
          2 (some (record { prev = some 0; next = some 3; block = low_block })))
        3 (some (record { prev = some 2; next = some 1; block = high_block }));
  fresh = 4;
  head = some 0;
}

some_blocks-IsSorted : IsSorted 0 some_blocks
some_blocks-IsSorted = (omega arith, omega arith, (omega arith, omega arith, tt))

some_heap-Represents : Represents some_heap some_blocks
unfolding update
some_heap-Represents = record {
  items =
      record { number = 0; block = head_block }
      ∷ record { number = 2; block = low_block }
      ∷ record { number = 3; block = high_block }
      ∷ record { number = 1; block = tail_block }
      ∷ [];
  chain = record {
    at_head = refl;
    linked = (refl, (refl, (refl, (refl, tt))));
    apart = (
      (omega arith, (omega arith, (omega arith, tt))),
      ((omega arith, (omega arith, tt)), ((omega arith, tt), (tt, tt))),
    );
    allocated = (omega arith, (omega arith, (omega arith, (omega arith, tt))));
    fit = omega arith;
  };
  is = refl;
}

insert_block-find_block_example :
    Returns
      (λ r.
        (r.0 ≡ some 4)
        × Maps
            (λ q.
              if 64 == q
              then some (record { ptr = 64; size = 4; flags = 0 })
              else find_from q some_blocks)
            r.1)
      (insert_block true 64 4 0 some_heap)
unfolding find_from
insert_block-find_block_example =
    insert_block-find_block some_heap some_blocks 64 4 0 some_heap-Represents some_blocks-IsSorted
      refl (omega arith) refl

delete_block-find_block_example :
    Returns
      (λ r.
        (r.0 ≡ is_found (find_from 96 some_blocks))
        × Maps (λ q. if 96 == q then none else find_from q some_blocks) r.1)
      (delete_block 96 some_heap)
delete_block-find_block_example =
    delete_block-find_block some_heap some_blocks 96 some_heap-Represents some_blocks-IsSorted refl
      (omega arith)
