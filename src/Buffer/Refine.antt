-- ===== src/Buffer/Refine.antt =====
-- `Buffer` against its contract: a stack of words that grows at its front.
use protocache.Base.{
  ℕ, ◌≡◌, refl, List, [], ◌∷◌, ◌++◌, length, drop, Run, done, ◌>>=◌, arith, subst, leb,
  if◌then◌else◌, Option, none, some, Bool-cases, Option-cases, inl, inr,
}
use protocache.Buffer.{Allocator, Buffer, view, put, put_slice, shrink, clear, reserve, empty}
use protocache.Buffer.Moves.{IsValid, Leaves, length-view}
use protocache.Buffer.Laws.{
  put-Leaves, put_slice-Leaves, shrink-Leaves, clear-Leaves, reserve-Leaves,
}

-- The calls of a client.
pub data Call : Type 0 where
  puts : ℕ → Call
  puts_all : List ℕ → Call
  shrinks : ℕ → Call
  clears : Call
  reserves : ℕ → Call

-- What a call means for the stack; only as many words as there are can be taken off.
unfoldable pub meaning : Call → List ℕ → Option (List ℕ)
meaning (puts w) ws = some (w ∷ ws)
meaning (puts_all vs) ws = some (vs ++ ws)
meaning (shrinks n) ws = if leb n (length ws) then some (drop n ws) else none
meaning clears ws = some []
meaning (reserves n) ws = some ws

unfoldable pub perform : Allocator → Call → Buffer → Run Buffer
perform h (puts w) b = put h w b
perform h (puts_all vs) b = put_slice h vs b
perform h (shrinks n) b = done (shrink n b)
perform h clears b = done (clear b)
perform h (reserves n) b = reserve h n b

unfoldable pub meanings : List Call → List ℕ → Option (List ℕ)
meanings [] ws = some ws
meanings (c ∷ cs) ws = elim (meaning c ws) [ none ↦ none | some ws' ↦ meanings cs ws' ]

unfoldable pub perform_all : Allocator → List Call → Buffer → Run Buffer
perform_all h [] b = done b
perform_all h (c ∷ cs) b = perform h c b >>= perform_all h cs

perform-Leaves :
    (h : Allocator) (c : Call) (b : Buffer) (ws : List ℕ)
    → IsValid b
    → meaning c (view b) ≡ some ws
    → Leaves ws (perform h c b)
unfolding perform meaning
perform-Leaves h (puts w) b ws v e =
    let same : w ∷ view b ≡ ws = cc in subst (λ l. Leaves l (put h w b)) same (put-Leaves h w b v)
perform-Leaves h (puts_all vs) b ws v e =
    let same : vs ++ view b ≡ ws = cc in
    subst (λ l. Leaves l (put_slice h vs b)) same (put_slice-Leaves h vs b v)
perform-Leaves h clears b ws v e =
    let same : [] ≡ ws = cc in subst (λ l. Leaves l (done (clear b))) same (clear-Leaves b v)
perform-Leaves h (reserves n) b ws v e =
    let same : view b ≡ ws = cc in
    subst (λ l. Leaves l (reserve h n b)) same (reserve-Leaves h n b v)
perform-Leaves h (shrinks n) b ws v e = elim (Bool-cases (leb n (length (view b)))) [
  | inl fits ↦
      let same : drop n (view b) ≡ ws = ground arith in
      subst (λ l. Leaves l (done (shrink n b))) same
        (shrink-Leaves n b v (ground (arith, length-view b v)))
  | inr big ↦ let clash : ◌≡◌ {A = Option (List ℕ)} none (some ws) = ground arith in cc
]

-- Whatever calls a client makes, as long as they mean something for the stack, the buffer stays
-- inside its arrays, and the words in use are those of the stack.
pub perform_all-meanings :
    (h : Allocator) (cs : List Call) (b : Buffer) (ws : List ℕ)
    → IsValid b
    → meanings cs (view b) ≡ some ws
    → Leaves ws (perform_all h cs b)
unfolding perform_all meanings
perform_all-meanings h [] b ws v e = record { next = b; returns = refl; valid = v; holds = cc }
perform_all-meanings h (c ∷ cs) b ws v e = elim (Option-cases (meaning c (view b))) [
  | inl bad ↦ let clash : ◌≡◌ {A = Option (List ℕ)} none (some ws) = ground arith in cc
  | inr (ws', good) ↦
      let r = perform-Leaves h c b ws' v good in
      rw r.returns (perform_all-meanings h cs r.next ws r.valid (rw r.holds (ground arith)))
]

-- A new buffer is the empty stack.
pub empty-IsValid : IsValid empty × (view empty ≡ [])
unfolding empty view
empty-IsValid = (record { sized = refl; inside = omega arith }, refl)
