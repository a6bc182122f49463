-- ===== src/Bits/Examples.antt =====
-- Runs of the programs on bits.
use mathlib.Core.Option
use home_work.Base.{◌≡◌, refl, some, arith}
use home_work.Base.Int.{pos}
use home_work.Bits.{bit_and, bit_or, print_binary, count_ones, replace_by_masks, replace_in_memory}
use home_work.Bits.Prints.{read_binary, ones_in, print_binary-reads_back}
use home_work.Bits.Replaces.{byte_value, replace_by_masks-memory}

print_binary-reads_back_example :
    (read_binary 0 (print_binary 3735928559) ≡ 3735928559)
    × (count_ones 3735928559 ≡ some (ones_in (print_binary 3735928559)))
print_binary-reads_back_example = print_binary-reads_back 3735928559 (omega arith)

replace_by_masks-memory_example :
    replace_by_masks 3735928559 (pos 18)
    ≡ Option.map (replace_in_memory 3735928559) (byte_value (pos 18))
replace_by_masks-memory_example = replace_by_masks-memory 3735928559 (pos 18)

replace_by_masks_test : replace_by_masks 3735928559 (pos 18) ≡ some 3725770479
unfolding replace_by_masks bit_and bit_or
replace_by_masks_test = refl
