-- ===== src/Buffer/Laws.antt =====
-- What each operation of `Buffer` does to the words in use.
use protocache.Base.{
  ℕ, ◌+◌, ◌-◌, ◌≤◌, ◌<◌, max, ◌≡◌, refl, ap, sym, ◌∙◌, List, [], ◌∷◌, ◌++◌, length, take, drop,
  Option, none, some, length-drop, length-take, ltb, leb, Run, done, arith, inl, inr, Bool-cases,
  drop_all, append-nil, take-append-drop,
}
use protocache.Buffer.{
  Allocator, Buffer, words, size, view, at, grown, do_expand, expand, put, put_slice, shrink, clear,
  reserve,
}
use protocache.Buffer.Moves.{
  IsValid, Leaves, drop-nil, drop-drop, buffer, store_head-Leaves, relocate-Leaves,
}

-- A run that leaves `n` words of any contents in front of the view of `b`.
pub record Expands (n : ℕ) (b : Buffer) (r : Run Buffer) : Type 0 where
  pub next : Buffer
  pub returns : r ≡ done next
  pub valid : IsValid next
  pub room : List ℕ
  pub room_length : length room ≡ n
  pub holds : view next ≡ room ++ view b

-- A tail that begins `n` words earlier.
earlier :
    (n off : ℕ) (mem : List ℕ)
    → n ≤ off
    → drop (off - n) mem ≡ take n (drop (off - n) mem) ++ drop off mem
earlier n off mem h =
    let e : off - n + n ≡ off = omega arith in
    sym (take-append-drop n (drop (off - n) mem))
    ∙ ap (◌++◌ (take n (drop (off - n) mem)))
        (drop-drop n (off - n) mem ∙ ap (λ (k : ℕ). drop k mem) e)

moved_back :
    (n : ℕ) (mem : List ℕ) (m off : ℕ) (b : Buffer)
    → length mem ≡ m
    → n ≤ off
    → off ≤ m
    → drop off mem ≡ view b
    → Expands n b (done (buffer (some mem) m (off - n)))
unfolding view
moved_back n mem m off b sized h inside e = record {
  next = buffer (some mem) m (off - n);
  returns = refl;
  valid = record { sized = sized; inside = omega arith };
  room = take n (drop (off - n) mem);
  room_length = omega (arith, length-take n (drop (off - n) mem), length-drop (off - n) mem);
  holds = earlier n off mem h ∙ ap (◌++◌ (take n (drop (off - n) mem))) e;
}

grown-le : (delta n : ℕ) → n + delta ≤ grown delta n
unfolding grown
grown-le delta n = omega arith

do_expand_any :
    (h : Allocator) (n : ℕ) (d : Option (List ℕ)) (m off : ℕ)
    → IsValid (buffer d m off)
    → off < n
    → Expands n (buffer d m off) (do_expand h n (buffer d m off))
unfolding do_expand view size
do_expand_any h n none m off v few = record {
  next = _;
  returns = refl;
  valid = record { sized = h.length-fresh (max n 8); inside = omega arith };
  room = drop (max n 8 - n) (h.fresh (max n 8));
  room_length =
      omega (arith, length-drop (max n 8 - n) (h.fresh (max n 8)), h.length-fresh (max n 8));
  holds = sym (append-nil _) ∙ ap (◌++◌ _) (sym (drop-nil off));
}
do_expand_any h n (some mem) m off v few =
    let b = buffer (some mem) m off in
    let m' = grown n m in
    let enough = grown-le n m in
    let (mem', e, sized, tail) = relocate-Leaves h m' b v (omega arith) in
    rw e (moved_back n mem' m' (m' - size b) b sized (omega arith) (omega arith) tail)

-- `Expand` gives `n` words of room and keeps the view, on every path.
pub expand-Expands : (h : Allocator) (n : ℕ) (b : Buffer) → IsValid b → Expands n b (expand h n b)
unfolding expand
expand-Expands h n b v = elim (Bool-cases (leb n b.off_)) [
  | inl e ↦ rw e (in_place b.data_ b.size_ b.off_ v (ground arith))
  | inr e ↦ rw e (do_expand_any h n b.data_ b.size_ b.off_ v (ground arith))
]
  where
    in_place :
        (d : Option (List ℕ)) (m off : ℕ)
        → IsValid (buffer d m off)
        → n ≤ off
        → Expands n (buffer d m off) (done (buffer d m (off - n)))
    in_place (some mem) m off v h =
        moved_back n mem m off (buffer (some mem) m off) v.sized h v.inside (unfold view in refl)
    in_place none m off v h = record {
      next = _;
      returns = refl;
      valid = record { sized = v.sized; inside = omega arith };
      room = [];
      room_length = omega arith;
      holds = unfold view in drop-nil (off - n) ∙ sym (drop-nil off);
    }

pub put_slice-Leaves :
    (h : Allocator) (ws : List ℕ) (b : Buffer)
    → IsValid b
    → Leaves (ws ++ view b) (put_slice h ws b)
unfolding put_slice
put_slice-Leaves h ws b v =
    let r = expand-Expands h (length ws) b v in
    rw r.returns (store_head-Leaves ws r.room (view b) r.next r.valid r.holds (sym r.room_length))

pub put-Leaves : (h : Allocator) (w : ℕ) (b : Buffer) → IsValid b → Leaves (w ∷ view b) (put h w b)
unfolding put
put-Leaves h w b v =
    let r = expand-Expands h 1 b v in
    rw r.returns
      (store_head-Leaves (w ∷ []) r.room (view b) r.next r.valid r.holds (sym r.room_length))

pub shrink-Leaves :
    (n : ℕ) (b : Buffer) → IsValid b → n ≤ size b → Leaves (drop n (view b)) (done (shrink n b))
unfolding shrink view size
shrink-Leaves n b v h = record {
  next = _;
  returns = refl;
  valid = record { sized = v.sized; inside = ground arith };
  holds = sym (drop-drop n b.off_ (words b));
}

pub clear-Leaves : (b : Buffer) → IsValid b → Leaves [] (done (clear b))
unfolding clear view
clear-Leaves b v = record {
  next = _;
  returns = refl;
  valid = record { sized = v.sized; inside = omega arith };
  holds = drop_all b.size_ (words b) (omega arith);
}

pub reserve-Leaves :
    (h : Allocator) (n : ℕ) (b : Buffer) → IsValid b → Leaves (view b) (reserve h n b)
unfolding reserve size
reserve-Leaves h n b v = elim (Bool-cases (ltb b.size_ n)) [
  | inl e ↦
      let (mem, r, sized, tail) = relocate-Leaves h n b v (ground arith) in
      rw (e, r)
        (record {
          next = _;
          returns = refl;
          valid = record { sized = sized; inside = omega arith };
          holds = unfold view in tail;
        })
  | inr e ↦ rw e (record { next = b; returns = refl; valid = v; holds = refl })
]

-- `At(n)` points at the last `n` words in use.
pub at-view : (n : ℕ) (b : Buffer) → IsValid b → n ≤ size b → at n b ≡ drop (size b - n) (view b)
unfolding at view size
at-view n b v h =
    let e : b.off_ + (b.size_ - b.off_ - n) ≡ b.size_ - n = omega arith in
    sym (drop-drop (b.size_ - b.off_ - n) b.off_ (words b) ∙ ap (λ (k : ℕ). drop k (words b)) e)
