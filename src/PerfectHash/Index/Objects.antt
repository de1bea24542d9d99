-- ===== src/PerfectHash/Index/Objects.antt =====
-- Build and Locate of the class PerfectHashObject, whose slots come from a divisor.
use protocache.Base.{
  ℕ, ◌+◌, ◌/◌, ◌%◌, ◌^◌, ◌<◌, ◌≡◌, ◌≢◌, refl, sym, ◌∙◌, true, Bool, ltb, if◌then◌else◌, List, [],
  get_or, Option, some, Run, done, arith,
}
use native.Mathlib.Nat.{mod-eq_of_lt}
use protocache.Access.Words.{word}
use protocache.Hash.Digest.{digest, hash128-digest}
use protocache.Hash.Range.{digest-lt}
use protocache.PerfectHash.Bits.{section, bitmap_size}
use protocache.PerfectHash.Bits.Sizes.{bitmap_size-section, bitmap_size-lt}
use protocache.PerfectHash.Division.{assign, modulo}
use protocache.PerfectHash.Division.Quotient.{div-assign}
use protocache.PerfectHash.Build.{Work, Image, build}
use protocache.PerfectHash.Build.Attempt.{HasSpace}
use protocache.PerfectHash.Build.Complete.{build-Built}
use protocache.PerfectHash.Build.Homes.{val_-assign, section-bounds}
use protocache.PerfectHash.Build.Size.{build-index_bytes}
use protocache.PerfectHash.Index.{
  object_of, object_key, object_locate, locate_key, locate, real_size, index_bytes, table_size,
}
use protocache.PerfectHash.Index.Safety.{table_size-le}
use protocache.PerfectHash.Index.Stored.{Stored}
use protocache.PerfectHash.Index.Minimal.{build-locate}

object_key-locate_key :
    (mem : List ℕ) (p n m : ℕ) (key : List ℕ)
    → 0 < m
    → m < 2 ^ 32
    → (seed : ℕ) → word mem (p + 1) ≡ done seed
    → object_key mem p n m (assign m) key ≡ locate_key mem p n m key
unfolding object_key locate_key
object_key-locate_key mem p n m key pos small seed read =
    let (lo_lt, hi_lt) = digest-lt key seed in
    let (lo, hi) = digest key seed in
    let rest : (x : ℕ) → x < 2 ^ 32 → modulo (assign m) x ≡ x % m =
      λ x h. (div-assign m x pos small h).1 in
    rw
      (
        read,
        hash128-digest key seed,
        rest (lo % 2 ^ 32) (omega arith),
        rest (lo / 2 ^ 32) (omega arith),
        rest (hi % 2 ^ 32) (omega arith),
        val_-assign m,
      )
      refl

index_bytes-gt : (n : ℕ) → n < 2 ^ 28 → 8 < index_bytes n
unfolding index_bytes
index_bytes-gt n small =
    let bytes = bitmap_size (section n) in
    let (room, _, more) = bitmap_size-section n small in
    let short = bitmap_size-lt n small in
    let extra = table_size-le n bytes in
    let (pos, _) = section-bounds n small in
    let exact = mod-eq_of_lt {n = bytes + table_size n bytes + 8} {m = 2 ^ 32} (omega arith) in
    omega arith

-- Where build, on arrays with room for n keys, more than one, makes an image that stands in a memory of 32-bit
-- words, object_locate on the object of this image ends without a fault on each of the n keys with a place
-- below n, and the places of any two of the keys are different.
pub build-object_locate :
    (no_check : Bool) (source : List (List ℕ)) (n seed : ℕ) (work : Work) (i : Image) (mem : List ℕ)
    (p : ℕ)
    → HasSpace n work
    → build no_check source n seed work ≡ done (some i)
    → 1 < n
    → Stored mem p i
    → (place : ℕ → ℕ) × ((k : ℕ)
        → k < n
        → (object_locate mem (object_of p (some i)) (get_or source k []) ≡ done (place k))
          × (place k < n))
      × ((j k : ℕ) → j < n → k < n → j ≢ k → place j ≢ place k)
unfolding object_locate object_of locate
build-object_locate no_check source n seed work i mem p space made many stored =
    let (small, size) = build-index_bytes no_check source n seed work i made many in
    let (o, e, imaged) = build-Built no_check source n seed work space in
    let built : ◌≡◌ {A = Run (Option Image)} (done o) (done (some i)) = sym e ∙ made in
    let total = let im = imaged i (cc) many in im.total in
    let (pos, narrow) = section-bounds n small in
    let large : ltb 8 i.data_size ≡ true =
      let more = index_bytes-gt n small in ground (arith, size) in
    let m = if ltb 8 i.data_size then section i.total else 0 in
    let width : m ≡ section n = rw (large, total) refl in
    let ix = (object_of p (some i)).index_ in
    let (place, places, differ) =
      build-locate no_check source n seed work i mem p ix space made many stored refl width in
    let same : (key : List ℕ) → object_locate mem (object_of p (some i)) key ≡ locate mem ix key =
      λ key.
        rw
          (
            stored.size,
            object_key-locate_key mem p (real_size stored.head) m key (omega (arith, width))
                (omega (arith, width)) i.seed stored.seed,
          )
          refl in
    (place, λ k h. (same (get_or source k []) ∙ (places k h).0, (places k h).1), differ)
