-- ===== src/Hash/Tests.antt =====
-- The theorem on `Hash128` at a concrete key.
use protocache.Base.{◌≡◌, [], ◌∷◌, done}
use protocache.Hash.{hash128}
use protocache.Hash.Digest.{digest, hash128-digest}

hash128-digest_example :
    hash128 (97 ∷ 98 ∷ 99 ∷ 100 ∷ 101 ∷ []) 5 7 ≡ done (digest (97 ∷ 98 ∷ 99 ∷ 100 ∷ 101 ∷ []) 7)
hash128-digest_example = hash128-digest (97 ∷ 98 ∷ 99 ∷ 100 ∷ 101 ∷ []) 7
