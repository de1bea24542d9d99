-- ===== src/Hash/Range.antt =====
-- `Hash128` gives two numbers of 64 bits.
use protocache.Base.{ℕ, ◌+◌, ◌*◌, ◌/◌, ◌%◌, ◌^◌, ◌<◌, ◌≡◌, List, bit_or_low, arith}
use native.Mathlib.Nat.{mod-lt}
use protocache.Hash.{State, end, rot64, add64}
use protocache.Hash.Digest.{digest}

rot64-lt : (x y : ℕ) → rot64 (add64 x y) 63 < 2 ^ 64
unfolding rot64
rot64-lt x y =
    let z = add64 x y in
    let z_lt : z < 2 ^ 64 = mod-lt (x + y) (omega arith) in
    let high : z * 2 ^ 63 % 2 ^ 64 ≡ z % 2 * 2 ^ 63 = omega arith in
    rw (high, bit_or_low 63 (z % 2) (z / 2) (omega arith)) (omega arith)

end-lt : (s : State) → ((end s).a < 2 ^ 64) × ((end s).b < 2 ^ 64)
unfolding end
end-lt s = (rot64-lt _ _, mod-lt _ (omega arith))

pub digest-lt :
    (key : List ℕ) (seed : ℕ) → ((digest key seed).0 < 2 ^ 64) × ((digest key seed).1 < 2 ^ 64)
unfolding digest
digest-lt key seed = end-lt _
