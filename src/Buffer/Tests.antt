-- ===== src/Buffer/Tests.antt =====
-- The theorems on `Buffer` at concrete inputs.
use protocache.Base.{refl, List, [], ◌∷◌, replicate, length-replicate}
use protocache.Buffer.{Allocator, empty, view, expand}
use protocache.Buffer.Moves.{Leaves}
use protocache.Buffer.Laws.{Expands, expand-Expands}
use protocache.Buffer.Refine.{
  Call, puts, puts_all, shrinks, reserves, meaning, meanings, perform_all, perform_all-meanings,
  empty-IsValid,
}

abbrev zeroed : Allocator
zeroed = record { fresh = λ n. replicate n 0; length-fresh = λ n. length-replicate n 0 }

abbrev history : List Call
history = puts 1 ∷ puts_all (2 ∷ 3 ∷ []) ∷ shrinks 1 ∷ reserves 20 ∷ puts 4 ∷ []

perform_all-meanings_example : Leaves (4 ∷ 3 ∷ 1 ∷ []) (perform_all zeroed history empty)
unfolding meanings meaning view empty
perform_all-meanings_example =
    perform_all-meanings zeroed history empty (4 ∷ 3 ∷ 1 ∷ []) empty-IsValid.0 refl

expand-Expands_example : Expands 3 empty (expand zeroed 3 empty)
expand-Expands_example = expand-Expands zeroed 3 empty empty-IsValid.0
