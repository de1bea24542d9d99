-- ===== src/Base/Pointer.antt =====
-- A pointer into a byte or word array that is being filled: what lies before it, and what lies from it on to
-- the end of the allocation. A load or a store that would leave the allocation is a fault.
use Prim.Native.Nat.{ℕ, suc, ◌+◌, ◌-◌, ◌≤◌}
use mathlib.Core.Path.{◌≡◌, refl}
use mathlib.Core.List.{List, [], ◌∷◌, ◌++◌}
use mathlib.Core.Option.{Option, none, some}
use mathlib.Core.Option
use native.Mathlib.Omega.{arith}
use protocache.Base.Tests.{leb, if◌then◌else◌}
use protocache.Base.Lists.{length, take, drop, length-drop, length-append, length-append}
use protocache.Base.Lists.{take-append-left}

pub record Cursor : Type 0 where
  pub before : List ℕ
  pub after : List ℕ

-- Writes `ws` over the front of `room`.
unfoldable pub poke : List ℕ → List ℕ → Option (List ℕ)
poke [] room = some room
poke (w ∷ ws) [] = none
poke (w ∷ ws) (r ∷ room) = Option.map (λ rest. w ∷ rest) (poke ws room)

-- `memcpy(p, ws, n)`; the pointer stays.
unfoldable pub store : List ℕ → Cursor → Option Cursor
store ws c = Option.map (λ room. record c { after = room }) (poke ws c.after)

-- `p += n`
unfoldable pub advance : ℕ → Cursor → Cursor
advance n c = record { before = c.before ++ take n c.after; after = drop n c.after }

-- The `n` elements at the head of `src`.
unfoldable pub load : ℕ → List ℕ → Option (List ℕ)
load n src = if leb n (length src) then some (take n src) else none

pub poke-append :
    (ws room : List ℕ) → length ws ≤ length room → poke ws room ≡ some (ws ++ drop (length ws) room)
unfolding poke
poke-append [] room h = refl
poke-append (w ∷ ws) [] h = absurd (omega arith)
poke-append (w ∷ ws) (r ∷ room) h = rw (poke-append ws room (omega arith))

pub poke-none : (ws room : List ℕ) → suc (length room) ≤ length ws → poke ws room ≡ none
unfolding poke
poke-none [] room h = absurd (omega arith)
poke-none (w ∷ ws) [] h = refl
poke-none (w ∷ ws) (r ∷ room) h = rw (poke-none ws room (omega arith))

pub store-none : (ws : List ℕ) (c : Cursor) → suc (length c.after) ≤ length ws → store ws c ≡ none
unfolding store
store-none ws c h = rw (poke-none ws c.after h)

-- A store that fits, and then a step over its first `n` elements.
pub store_fits :
    (ws : List ℕ) (c : Cursor)
    → length ws ≤ length c.after
    → store ws c ≡ some (record c { after = ws ++ drop (length ws) c.after })
unfolding store
store_fits ws c h = rw (poke-append ws c.after h)

pub before-advance :
    (n : ℕ) (ws rest before : List ℕ)
    → n ≤ length ws
    → (advance n (record { before = before; after = ws ++ rest })).before ≡ before ++ take n ws
unfolding advance
before-advance n ws rest before h = rw (take-append-left n ws rest h)

pub length-after-advance : (n : ℕ) (c : Cursor) → length (advance n c).after ≡ length c.after - n
unfolding advance
length-after-advance n c = length-drop n c.after

pub load_fits : (n : ℕ) (src : List ℕ) → n ≤ length src → load n src ≡ some (take n src)
unfolding load
load_fits n src h = ground arith

-- A store that fits does not change how much there is, and a step takes its part of it.
pub length-after-store :
    (n : ℕ) (ws room before : List ℕ)
    → n ≤ length ws
    → length ws ≤ length room
    → length (advance n (record { before = before; after = ws ++ drop (length ws) room })).after + n
      ≡ length room
unfolding advance
length-after-store n ws room before h k = omega (
  arith,
  length-drop n (ws ++ drop (length ws) room),
  length-append ws (drop (length ws) room),
  length-drop (length ws) room,
)
