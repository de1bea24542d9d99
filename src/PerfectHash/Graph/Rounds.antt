-- ===== src/PerfectHash/Graph/Rounds.antt =====
-- The second loop of TearGraph: in each round an edge of the queue leaves the three sections.
use protocache.Base.{
  ℕ, zero, suc, ◌+◌, ◌<◌, ◌≤◌, ◌≡◌, refl, ap, sym, subst, ◌∙◌, inl, inr, true, false, Bool, not,
  List, [], ◌∷◌, ◌++◌, append_assoc, take, take-append-left, length, get_elem?, Option,
  Option-cases, none, some, Run, done, arith,
}
use mathlib.Core.Path.{fun_ext}
use protocache.PerfectHash.Graph.{Graph, Queue, no_edge, detach, tear}
use protocache.PerfectHash.Graph.Nearest.{without}
use protocache.PerfectHash.Graph.Linked.{Linked}
use protocache.PerfectHash.Graph.Views.{section_of}
use protocache.PerfectHash.Graph.Waiting.{
  QueueOf, Freed, contains, contains-append, contains_left, length_free,
}
use protocache.PerfectHash.Graph.Detached.{LinkedAt, detach-Leaves}

-- The edges that the first `head` rounds have not taken out.
abbrev pub left : ℕ → List ℕ → ℕ → Bool
left head free k = not (contains k (take head free))

-- An item of the queue, and the items before it.
taken :
    (n : ℕ) (s : ℕ → ℕ → ℕ) (seen post : List ℕ) (head c : ℕ)
    → Freed n s seen post
    → get_elem? post head ≡ some c
    → (c < n)
      × (contains c (seen ++ take head post) ≡ false)
      × (take (suc head) post ≡ take head post ++ c ∷ [])
      × (contains c post ≡ true)
      × (head < length post)
taken n s seen [] head c freed there = let clash : ◌≡◌ {A = Option ℕ} none (some c) = there in cc
taken n s seen (x ∷ post) zero c (h, fresh, free, freed) there =
    let same : x ≡ c = cc in
    let here : contains x seen ≡ false = fresh in
    rw (← same) (h, rw (contains-append x seen [], here) refl, refl, ground arith, omega arith)
taken n s seen (x ∷ post) (suc head) c (h, fresh, free, freed) there =
    let (hc, new, next, inside, short) = taken n s (seen ++ x ∷ []) post head c freed there in
    (
      hc,
      rw (append_assoc seen (x ∷ []) (take head post)) at new,
      ap (◌∷◌ x) next,
      rw inside (ground arith),
      omega arith,
    )

contains-take : (k n : ℕ) (xs : List ℕ) → contains k (take n xs) ≡ true → contains k xs ≡ true
contains-take k zero [] h = h
contains-take k zero (x ∷ xs) h = absurd (ground arith)
contains-take k (suc n) [] h = h
contains-take k (suc n) (x ∷ xs) h = ground (arith, contains-take k n xs)

LinkedAt-other :
    (n e : ℕ) (live : ℕ → Bool) (s : ℕ → ℕ → ℕ) (j : ℕ) (g g' : Graph)
    → ((k : ℕ) → section_of g' j k ≡ section_of g j k)
    → LinkedAt n e live s j g
    → LinkedAt n e live s j g'
LinkedAt-other n e live s j g g' same at = record {
  linked = subst (Linked n e live (s j)) (sym (fun_ext same)) at.linked;
  slots = λ k h. rw (same k) (at.slots k h);
}

LinkedAt-live :
    (n e : ℕ) (live live' : ℕ → Bool) (s : ℕ → ℕ → ℕ) (j : ℕ) (g : Graph)
    → ((k : ℕ) → live k ≡ live' k)
    → LinkedAt n e live s j g
    → LinkedAt n e live' s j g
LinkedAt-live n e live live' s j g same at = record {
  linked = subst (λ l. Linked n e l (s j) (section_of g j)) (fun_ext same) at.linked;
  slots = at.slots;
}

by_section {ℓ} : (P : ℕ → Type ℓ) → P 0 → P 1 → P 2 → (j : ℕ) → j < 3 → P j
by_section P a b c zero h = a
by_section P a b c (suc zero) h = b
by_section P a b c (suc (suc zero)) h = c
by_section P a b c (suc (suc (suc j))) h = absurd (omega arith)

-- Before a round.
pub record Tearing (w n : ℕ) (s : ℕ → ℕ → ℕ) (head : ℕ) (g : Graph) (q : Queue) : Type 0 where
  pub room : n ≤ length g.edges
  pub sections : (j : ℕ) → j < 3 → LinkedAt n (no_edge w) (left head q.free) s j g
  pub queue : QueueOf n s q

-- After the rounds.
pub record Emptied (n : ℕ) (s : ℕ → ℕ → ℕ) (g : Graph) (q : Queue) (r : Run (Graph × Queue))
    : Type 0 where
  pub next : Graph
  pub last : Queue
  pub returns : r ≡ done (next, last)
  pub edges : length next.edges ≡ length g.edges
  pub nodes : length next.nodes ≡ length g.nodes
  pub slots : (j k : ℕ) → j < 3 → k < n → (section_of next j k).slot ≡ s j k
  pub valid : QueueOf n s last
  pub sized : length last.book ≡ length q.book

module _ (w n : ℕ) (s : ℕ → ℕ → ℕ) (small : n ≤ no_edge w) where
  record Round (head c : ℕ) (g : Graph) (q : Queue) : Type 0 where
    one : Graph
    first : Queue
    two : Graph
    second : Queue
    next : Graph
    last : Queue
    step : detach w n c 0 (g, q) ≡ done (one, first)
    step' : detach w n c 1 (one, first) ≡ done (two, second)
    step'' : detach w n c 2 (two, second) ≡ done (next, last)
    edges : length next.edges ≡ length g.edges
    nodes : length next.nodes ≡ length g.nodes
    sized : length last.book ≡ length q.book
    valid : Tearing w n s (suc head) next last

  round :
      (head c : ℕ) (g : Graph) (q : Queue)
      → Tearing w n s head g q
      → get_elem? q.free head ≡ some c
      → Round head c g q
  round head c g q t there =
      let (c_lt, new, upto, c_in, head_lt) = taken n s [] q.free head c t.queue.ordered there in
      let live = left head q.free in
      let c_live : live c ≡ true = ground arith in
      let gone : (more : List ℕ) (k : ℕ) → live k ≡ false → contains k (q.free ++ more) ≡ true =
        λ more k out. contains_left k q.free more (contains-take k head q.free (ground arith)) in
      let d =
        detach-Leaves w n 0 c s live g q small (omega arith) c_lt c_live t.room
          (t.sections 0 (omega arith)) t.queue
          (λ k h out. contains-take k head q.free (ground arith)) c_in in
      let at1 =
        LinkedAt-other n (no_edge w) live s 1 g d.next
          (λ k. d.others 1 k (omega arith) (omega arith)) (t.sections 1 (omega arith)) in
      let d' =
        detach-Leaves w n 1 c s live d.next d.queue small (omega arith) c_lt c_live
          (omega (arith, d.edges, t.room)) at1 d.valid (λ k h out. rw d.extends (gone d.more k out))
          (rw d.extends (contains_left c q.free d.more c_in)) in
      let at2 =
        LinkedAt-other n (no_edge w) live s 2 d.next d'.next
          (λ k. d'.others 2 k (omega arith) (omega arith))
          (LinkedAt-other n (no_edge w) live s 2 g d.next
            (λ k. d.others 2 k (omega arith) (omega arith)) (t.sections 2 (omega arith))) in
      let two_more : d'.queue.free ≡ q.free ++ (d.more ++ d'.more) =
        rw (d'.extends, d.extends) (append_assoc q.free d.more d'.more) in
      let d'' =
        detach-Leaves w n 2 c s live d'.next d'.queue small (omega arith) c_lt c_live
          (omega (arith, d.edges, d'.edges, t.room)) at2 d'.valid
          (λ k h out. rw two_more (gone (d.more ++ d'.more) k out))
          (rw two_more (contains_left c q.free (d.more ++ d'.more) c_in)) in
      let three_more : d''.queue.free ≡ q.free ++ ((d.more ++ d'.more) ++ d''.more) =
        rw (d''.extends, two_more) (append_assoc q.free (d.more ++ d'.more) d''.more) in
      let kept : take (suc head) d''.queue.free ≡ take head q.free ++ c ∷ [] =
        rw
          (
            three_more,
            take-append-left (suc head) q.free ((d.more ++ d'.more) ++ d''.more) (omega arith),
          )
          upto in
      let now : (k : ℕ) → without c live k ≡ left (suc head) d''.queue.free k =
        λ k. rw (kept, contains-append k (take head q.free) (c ∷ [])) (ground arith) in
      let last = no_edge w in
      let end0 =
        LinkedAt-other n last (without c live) s 0 d'.next d''.next
          (λ k. d''.others 0 k (omega arith) (omega arith))
          (LinkedAt-other n last (without c live) s 0 d.next d'.next
            (λ k. d'.others 0 k (omega arith) (omega arith)) d.section) in
      let end1 =
        LinkedAt-other n last (without c live) s 1 d'.next d''.next
          (λ k. d''.others 1 k (omega arith) (omega arith)) d'.section in
      record {
        one = d.next;
        first = d.queue;
        two = d'.next;
        second = d'.queue;
        next = d''.next;
        last = d''.queue;
        step = d.returns;
        step' = d'.returns;
        step'' = d''.returns;
        edges = omega (arith, d.edges, d'.edges, d''.edges);
        nodes = omega (arith, d.nodes, d'.nodes, d''.nodes);
        sized = omega (arith, d.sized, d'.sized, d''.sized);
        valid = record {
          room = omega (arith, d.edges, d'.edges, d''.edges, t.room);
          sections =
              by_section (λ j. LinkedAt n last (left (suc head) d''.queue.free) s j d''.next)
                (LinkedAt-live n last (without c live) (left (suc head) d''.queue.free) s 0 d''.next
                  now end0)
                (LinkedAt-live n last (without c live) (left (suc head) d''.queue.free) s 1 d''.next
                  now end1)
                (LinkedAt-live n last (without c live) (left (suc head) d''.queue.free) s 2 d''.next
                  now d''.section);
          queue = d''.valid;
        };
      }

  over_now :
      (head : ℕ) (g : Graph) (q : Queue) → Tearing w n s head g q → Emptied n s g q (done (g, q))
  over_now head g q t = record {
    next = g;
    last = q;
    returns = refl;
    edges = refl;
    nodes = refl;
    slots = λ j k h hk. (t.sections j h).slots k hk;
    valid = t.queue;
    sized = refl;
  }

  pub tear-Emptied :
      (fuel head : ℕ) (g : Graph) (q : Queue)
      → n ≤ fuel + head
      → Tearing w n s head g q
      → Emptied n s g q (tear w n fuel head (g, q))
  unfolding tear
  tear-Emptied zero head g q enough t = elim (Option-cases (get_elem? q.free head)) [
    | inl over ↦ rw (tear, over) (over_now head g q t)
    | inr (c, there) ↦
        let (_, _, _, _, head_lt) = taken n s [] q.free head c t.queue.ordered there in
        absurd (omega (arith, length_free n s q t.queue))
  ]
  tear-Emptied (suc fuel) head g q enough t = elim (Option-cases (get_elem? q.free head)) [
    | inl over ↦ rw (tear, over) (over_now head g q t)
    | inr (c, there) ↦
        let r = round head c g q t there in
        let rest = tear-Emptied fuel (suc head) r.next r.last (omega arith) r.valid in
        record {
          next = rest.next;
          last = rest.last;
          returns = rw (tear, there, r.step, r.step', r.step'') rest.returns;
          edges = rest.edges ∙ r.edges;
          nodes = rest.nodes ∙ r.nodes;
          slots = rest.slots;
          valid = rest.valid;
          sized = rest.sized ∙ r.sized;
        }
  ]
