-- ===== src/Bitmap/Tests.antt =====
-- Runs of the bit map's code, and its theorems at one bit map of 40 bits.
use os_td_minf.Prelude.{ℕ, ◌<◌, ◌≡◌, refl, true, false, none, some, [], ◌∷◌, arith, pos, negsuc}
use os_td_minf.Bitmap.Defs.{
  BitMap, mark, clear, test, create, clear_loop, find, find_loop, num_clear, num_clear_loop,
  div_round_up,
}
use os_td_minf.Bitmap.Words.{IsValid, is_set, Updated, mark-Updated, clear-Updated, test_lem}
use os_td_minf.Bitmap.Search.{Finds, find-Finds, free_count, num_clear_lem, create-Cleared}

-- Bits 0 to 31 and bits 32 and 34 are set.
abbrev forty : BitMap
forty = record { num_bits = 40; num_words = 2; map = 0xffff_ffff ∷ 5 ∷ [] }

forty-IsValid : IsValid forty
forty-IsValid = omega arith

find_runs : find forty ≡ some (record forty { map = 0xffff_ffff ∷ 7 ∷ [] }, pos 33)
unfolding find find_loop test mark
find_runs = refl

num_clear_runs : num_clear forty ≡ some 6
unfolding num_clear num_clear_loop test
num_clear_runs = refl

mark_out_of_range : (mark forty (pos 40) ≡ none) × (mark forty (negsuc 0) ≡ none)
unfolding mark
mark_out_of_range = (refl, refl)

create_runs :
    create 33 (7 ∷ 7 ∷ []) ≡ some (record { num_bits = 33; num_words = 2; map = 0 ∷ 6 ∷ [] })
unfolding create clear_loop clear
create_runs = refl

mark-Updated_example : (b : BitMap) × (mark forty (pos 33) ≡ some b) × Updated forty 33 true b
mark-Updated_example = mark-Updated forty 33 forty-IsValid (omega arith)

clear-Updated_example : (b : BitMap) × (clear forty (pos 31) ≡ some b) × Updated forty 31 false b
clear-Updated_example = clear-Updated forty 31 forty-IsValid (omega arith)

test_lem_example : test forty (pos 33) ≡ some (is_set forty 33)
test_lem_example = test_lem forty 33 (omega arith)

find-Finds_example : Finds forty (find forty)
find-Finds_example = find-Finds forty forty-IsValid

num_clear_lem_example : num_clear forty ≡ some (free_count forty)
num_clear_lem_example = num_clear_lem forty

create-Cleared_example :
    (b : BitMap) × (create 33 (7 ∷ 7 ∷ []) ≡ some b)
    × IsValid b
    × (b.num_bits ≡ 33)
    × ((j : ℕ) → j < 33 → is_set b j ≡ false)
unfolding div_round_up
create-Cleared_example = create-Cleared 33 (7 ∷ 7 ∷ []) refl
