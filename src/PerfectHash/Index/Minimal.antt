-- ===== src/PerfectHash/Index/Minimal.antt =====
-- Build and then Locate.
use protocache.Base.{ℕ, ◌<◌, ◌≡◌, ◌≢◌, sym, ◌∙◌, Bool, List, [], get_or, Option, some, Run, done}
use protocache.PerfectHash.Bits.{section}
use protocache.PerfectHash.Build.{Work, Image, build}
use protocache.PerfectHash.Build.Attempt.{HasSpace}
use protocache.PerfectHash.Build.Complete.{build-Built}
use protocache.PerfectHash.Build.Size.{build-index_bytes}
use protocache.PerfectHash.Index.{Index, locate}
use protocache.PerfectHash.Index.Stored.{Stored}
use protocache.PerfectHash.Index.Places.{locate-places}

-- Where build, on arrays with room for n keys, more than one, makes an image, and the image stands in a memory
-- of 32-bit words, with anything in the highest four bits of its first word, where a reader with the section
-- of n keys looks, locate ends without a fault on each of the n keys with a place below n, and the places of
-- any two of the keys are different.
pub build-locate :
    (no_check : Bool) (source : List (List ℕ)) (n seed : ℕ) (work : Work) (i : Image) (mem : List ℕ)
    (p : ℕ) (ix : Index)
    → HasSpace n work
    → build no_check source n seed work ≡ done (some i)
    → 1 < n
    → Stored mem p i
    → ix.data_ ≡ some p
    → ix.section_ ≡ section n
    → (place : ℕ → ℕ) × ((k : ℕ)
        → k < n
        → (locate mem ix (get_or source k []) ≡ done (place k)) × (place k < n))
      × ((j k : ℕ) → j < n → k < n → j ≢ k → place j ≢ place k)
build-locate no_check source n seed work i mem p ix space made many stored here width =
    let (small, _) = build-index_bytes no_check source n seed work i made many in
    let (o, e, imaged) = build-Built no_check source n seed work space in
    let two : ◌≡◌ {A = Run (Option Image)} (done o) (done (some i)) = sym e ∙ made in
    locate-places mem p n source i many small (imaged i (cc) many) stored ix here width
