-- ===== src/Buffer/Moves.antt =====
-- A valid buffer, and moves of its words in use.
use protocache.Base.{
  ℕ, zero, suc, ◌+◌, ◌-◌, ◌≤◌, ◌≡◌, refl, ap, sym, ◌∙◌, List, [], ◌∷◌, ◌++◌, length, take, drop,
  Option, none, some, length-drop, length-take, length-append, Run, done, poke-append, load_fits,
  arith, take_all, drop_all, drop-length-append, append-nil,
}
use protocache.Buffer.{Allocator, Buffer, words, size, view, copy_to, store_head, relocate}

-- The array is as long as `size_` says, and the words in use lie inside it.
pub record IsValid (b : Buffer) : Type 0 where
  pub sized : length (words b) ≡ b.size_
  pub inside : b.off_ ≤ b.size_

pub drop-nil : (n : ℕ) → drop n (let xs : List ℕ = [] in xs) ≡ []
drop-nil zero = refl
drop-nil (suc n) = refl

pub drop-drop : (n m : ℕ) (xs : List ℕ) → drop n (drop m xs) ≡ drop (m + n) xs
drop-drop n zero xs = let e : 0 + n ≡ n = omega arith in rw e
drop-drop n (suc m) [] = drop-nil n ∙ sym (drop-nil (suc m + n))
drop-drop n (suc m) (x ∷ xs) =
    let e : suc m + n ≡ suc (m + n) = omega arith in rw e (drop-drop n m xs)

-- The tail of an array from an offset, when the part before it is replaced or kept.
drop-take_append : (n : ℕ) (xs ys : List ℕ) → n ≤ length xs → drop n (take n xs ++ ys) ≡ ys
drop-take_append zero xs ys h = refl
drop-take_append (suc n) [] ys h = absurd (omega arith)
drop-take_append (suc n) (x ∷ xs) ys h = drop-take_append n xs ys (omega arith)

pub length-view : (b : Buffer) → IsValid b → length (view b) ≡ size b
unfolding view size
length-view b v = omega (arith, length-drop b.off_ (words b))

-- The run ends in a valid buffer in which `ws` is in use.
pub record Leaves (ws : List ℕ) (r : Run Buffer) : Type 0 where
  pub next : Buffer
  pub returns : r ≡ done next
  pub valid : IsValid next
  pub holds : view next ≡ ws

copy_to_fits :
    (off : ℕ) (ws mem : List ℕ)
    → off + length ws ≤ length mem
    → copy_to off ws mem ≡ some (take off mem ++ (ws ++ drop (length ws) (drop off mem)))
unfolding copy_to
copy_to_fits off ws mem h = rw (poke-append ws (drop off mem) (omega (arith, length-drop off mem)))

abbrev pub buffer : Option (List ℕ) → ℕ → ℕ → Buffer
buffer d n off = record { data_ = d; size_ = n; off_ = off }

store_head_array :
    (ws front back mem : List ℕ) (n off : ℕ)
    → length mem ≡ n
    → off ≤ n
    → drop off mem ≡ front ++ back
    → length ws ≡ length front
    → Leaves (ws ++ back) (store_head ws (buffer (some mem) n off))
unfolding store_head view
store_head_array ws front back mem n off sized inside e long =
    let whole = ap length e ∙ length-append front back in
    let left = length-drop off mem in
    let tail : drop (length ws) (drop off mem) ≡ back =
      rw (e, long) (drop-length-append front back) in
    rw (copy_to_fits off ws mem (omega arith), tail)
      (record {
        next = _;
        returns = refl;
        valid = record {
          sized = omega (
            arith,
            length-append (take off mem) (ws ++ back),
            length-append ws back,
            length-take off mem,
          );
          inside = inside;
        };
        holds = drop-take_append off mem (ws ++ back) (omega arith);
      })

store_head_any :
    (ws front back : List ℕ) (d : Option (List ℕ)) (n off : ℕ)
    → IsValid (buffer d n off)
    → view (buffer d n off) ≡ front ++ back
    → length ws ≡ length front
    → Leaves (ws ++ back) (store_head ws (buffer d n off))
unfolding view
store_head_any ws front back (some mem) n off v e long =
    store_head_array ws front back mem n off v.sized v.inside e long
store_head_any [] front [] none n off v e long = record {
  next = buffer none n off;
  returns = unfold store_head in refl;
  valid = v;
  holds = unfold view in drop-nil off;
}
store_head_any [] front (x ∷ back) none n off v e long =
    absurd (omega (arith, ap length (sym (drop-nil off) ∙ e), length-append front (x ∷ back)))
store_head_any (w ∷ ws) front back none n off v e long =
    absurd (omega (arith, ap length (sym (drop-nil off) ∙ e), length-append front back))

-- A store at the head that fits overwrites the front of the view.
pub store_head-Leaves :
    (ws front back : List ℕ) (b : Buffer)
    → IsValid b
    → view b ≡ front ++ back
    → length ws ≡ length front
    → Leaves (ws ++ back) (store_head ws b)
store_head-Leaves ws front back b = store_head_any ws front back b.data_ b.size_ b.off_

-- The words in use survive a move to an array of `n` words that has room for them.
pub relocate-Leaves :
    (h : Allocator) (n : ℕ) (b : Buffer)
    → IsValid b
    → size b ≤ n
    → (mem : List ℕ) × (relocate h n b ≡ done (buffer (some mem) n (n - size b)))
      × (length mem ≡ n)
      × (drop (n - size b) mem ≡ view b)
unfolding relocate view
relocate-Leaves h n b v room =
    let used = drop b.off_ (words b) in
    let long : length used ≡ size b = length-view b v in
    let fresh = h.length-fresh n in
    let off = n - size b in
    let tail : drop (length used) (drop off (h.fresh n)) ≡ [] =
      drop_all (length used) (drop off (h.fresh n)) (omega (arith, length-drop off (h.fresh n))) in
    let load_all =
      load_fits (size b) used (omega arith) ∙ ap some (take_all (size b) used (omega arith)) in
    (
      take off (h.fresh n) ++ used,
      rw (load_all, copy_to_fits off used (h.fresh n) (omega arith), tail, append-nil used),
      omega (arith, length-append (take off (h.fresh n)) used, length-take off (h.fresh n)),
      drop-take_append off (h.fresh n) used (omega arith),
    )
