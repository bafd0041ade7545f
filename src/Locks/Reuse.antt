-- ===== src/Locks/Reuse.antt =====
-- ring.go: SubmitEntry does not look at the head, nor at who still holds the slot of the tail.
use iouring_go.Base.{
  ℕ, zero, suc, ◌+◌, ◌-◌, ◌%◌, ◌^◌, ◌<◌, ◌≡◌, ◌≢◌, refl, sym, ap, ◌∙◌, some, get_elem?, set, arith,
  bit_and, List, get_elem?-set_self, get_elem?-set_ne, lt_of_get,
}
use native.Mathlib.Nat.{mod-lt, mod-add-mod, add-mod_left, mod-eq_of_lt}
use iouring_go.Base.Bits.{pow-pos}
use iouring_go.Locks.{Shared, Pc, Move, System, Reach, idle, writing, next_of, step, here, later}
use iouring_go.Locks.Slots.{IsSized, mask-mod, next-mod}

pub Reach-trans : {s t u : System} → Reach s t → Reach t u → Reach s u
Reach-trans r here = r
Reach-trans r (later r' st) = later (Reach-trans r r') st

-- Steps of the goroutine `j` alone.
data Alone (m : Shared) (p : Pc) : Shared → Pc → Type 0 where
  begin : Alone m p m p
  more : {m' m'' : Shared} {q q' : Pc} → Alone m p m' q → Move m' q m'' q' → Alone m p m'' q'

Alone-Reach :
    {j : ℕ} {s : System} {p : Pc} {m : Shared} {q : Pc}
    → get_elem? s.pcs j ≡ some p
    → Alone s.mem p m q
    → (ps : List Pc) × Reach s (record { mem = m; pcs = ps })
      × (get_elem? ps j ≡ some q)
      × ((i : ℕ) → j ≢ i → get_elem? ps i ≡ get_elem? s.pcs i)
Alone-Reach {s = s} h begin = (s.pcs, here, h, λ i ne. refl)
Alone-Reach {j = j} h (more {q' = q'} a mv) =
    let (ps, r, own, others) = Alone-Reach h a in
    (
      set ps j q',
      later r (step j own mv),
      get_elem?-set_self ps j q' (lt_of_get ps j own),
      λ i ne. get_elem?-set_ne ps q' ne ∙ others i ne,
    )

-- A goroutine `i` that writes its entry in the slot `x`, and an idle one `j`.
record Beside (k i j x : ℕ) (s : System) : Type 0 where
  sized : IsSized k s.mem
  free : s.mem.entered ≡ 0
  room : s.mem.writes + 1 < 2 ^ 32
  other : get_elem? s.pcs i ≡ some (writing x)
  own : get_elem? s.pcs j ≡ some idle

module _ {k : ℕ} (j : ℕ) (m : Shared) (sized : IsSized k m) (free : m.entered ≡ 0)
    (room : m.writes + 1 < 2 ^ 32) where
  abbrev taken_one : Shared
  taken_one = record m { tail = next_of m m.tail; writes = (m.writes + 1) % 2 ^ 32 }

  -- An entry reserved.
  takes : Alone m idle taken_one (writing (bit_and m.tail m.mask))
  takes =
      more
        (more
          (more (more begin Move.load_tail) (
            Move.reserve
              (omega (arith, next-mod sized m.tail, sized.entries, mod-lt m.tail (pow-pos k)))
              refl))
          (Move.not_busy free))
        Move.count

  -- And published.
  turn : Alone m idle (record taken_one { writes = (m.writes + 1) % 2 ^ 32 - 1 }) idle
  turn =
      more (more (more takes (Move.load_writes (omega (arith, room)))) (Move.uncount refl))
        Move.store_array

module _ {k i j x : ℕ} (ne : j ≢ i) where
  one_turn :
      (s : System)
      → Beside k i j x s
      → (t : System) × Reach s t
        × Beside k i j x t
        × (t.mem.tail % 2 ^ k ≡ (s.mem.tail + 1) % 2 ^ k)
  one_turn s b =
      let (ps, r, own, others) = Alone-Reach b.own (turn j s.mem b.sized b.free b.room) in
      (
        record { mem = _; pcs = ps },
        r,
        record {
          sized = record {
            small = b.sized.small;
            mask_ones = b.sized.mask_ones;
            entries = b.sized.entries;
          };
          free = b.free;
          room = omega (arith, b.room);
          other = others i ne ∙ b.other;
          own = own;
        },
        ap (λ y. y % 2 ^ k) (next-mod b.sized s.mem.tail) ∙ mod-add-mod s.mem.tail (2 ^ k) 1,
      )

  turns :
      (n : ℕ) (s : System)
      → Beside k i j x s
      → (t : System) × Reach s t
        × Beside k i j x t
        × (t.mem.tail % 2 ^ k ≡ (s.mem.tail + n) % 2 ^ k)
  turns zero s b = (s, here, b, ap (λ y. y % 2 ^ k) (omega arith))
  turns (suc n) s b =
      let (t, r, b', e) = turns n s b in
      let (u, r', b'', e') = one_turn t b' in
      (
        u,
        Reach-trans r r',
        b'',
        e'
            ∙ sym (mod-add-mod t.mem.tail (2 ^ k) 1)
            ∙ ap (λ y. (y + 1) % 2 ^ k) e
            ∙ mod-add-mod (s.mem.tail + n) (2 ^ k) 1
            ∙ ap (λ y. y % 2 ^ k) (omega arith),
      )

  -- A goroutine is writing its entry, another one is idle, and nobody has entered the ring: the second
  -- can, by steps of its own alone, come to write the same entry.
  pub same_slot :
      (s : System)
      → IsSized k s.mem
      → s.mem.entered ≡ 0
      → s.mem.writes + 1 < 2 ^ 32
      → x < 2 ^ k
      → get_elem? s.pcs i ≡ some (writing x)
      → get_elem? s.pcs j ≡ some idle
      → (t : System) × Reach s t
        × (get_elem? t.pcs i ≡ some (writing x))
        × (get_elem? t.pcs j ≡ some (writing x))
  same_slot s sized free room small w idle_at =
      let a : ℕ = s.mem.tail % 2 ^ k in
      let (t, r, b, e) =
        turns (2 ^ k - a + x) s
          (record { sized = sized; free = free; room = room; other = w; own = idle_at }) in
      let at : bit_and t.mem.tail t.mem.mask ≡ x =
        mask-mod b.sized t.mem.tail
        ∙ e
        ∙ sym (mod-add-mod s.mem.tail (2 ^ k) (2 ^ k - a + x))
        ∙ ap (λ y. y % 2 ^ k) (omega (arith, mod-lt s.mem.tail (pow-pos k)))
        ∙ add-mod_left (2 ^ k) x
        ∙ mod-eq_of_lt small in
      let (ps, r', own, others) = Alone-Reach b.own (takes j t.mem b.sized b.free b.room) in
      (
        record { mem = _; pcs = ps },
        Reach-trans r r',
        others i ne ∙ b.other,
        own ∙ ap (λ y. some (writing y)) at,
      )
