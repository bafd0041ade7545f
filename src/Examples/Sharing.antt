-- ===== src/Examples/Sharing.antt =====
-- ring.go and types.go: goroutines at one ring.
use iouring_go.Base.{zero, suc, ◌≤◌, ℕ, ◌≡◌, ◌≢◌, refl, [], ◌∷◌, some, get_elem?, arith}
use iouring_go.Locks.{
  Shared, Move, System, Reach, idle, writing, panicked, inside, step, here, later,
}
use iouring_go.Locks.Counting.{total}
use iouring_go.Locks.Safety.{counted, at_rest, Reach-not_panicked, Reach-one_inside, Reach-writes}
use iouring_go.Locks.Slots.{IsSized, slot_at, slot_in, taken, reserves, Reach-apart}
use iouring_go.Locks.Overlap.{enters_while_writing}

abbrev words : Shared
words = record { tail = 0; entered = 0; writes = 0; mask = 1; n_entries = 2 }

-- The first of two goroutines holds an entry.
abbrev one_writing : System
one_writing = record { mem = record words { tail = 1; writes = 1 }; pcs = writing 0 ∷ idle ∷ [] }

-- The second one is inside.
abbrev one_in : System
one_in = record { mem = record words { entered = 1 }; pcs = idle ∷ inside ∷ [] }

abbrev to_writing : Reach (at_rest words 2) one_writing
to_writing =
    later
      (later
        (later (later here (step 0 refl Move.load_tail))
          (step 0 refl (Move.reserve (omega arith) refl)))
        (step 0 refl (Move.not_busy refl)))
      (step 0 refl Move.count)

to_inside : Reach (at_rest words 2) one_in
to_inside =
    later (later (later here (step 1 refl Move.start_enter)) (step 1 refl (Move.quiet refl)))
      (step 1 refl (Move.lock refl))

Reach-not_panicked_example : get_elem? one_writing.pcs 0 ≢ some panicked
Reach-not_panicked_example = Reach-not_panicked words 2 one_writing 0 (omega arith) to_writing

Reach-one_inside_example : (◌≡◌ {A = ℕ} 1 1) × (one_in.mem.entered ≡ 1)
Reach-one_inside_example = Reach-one_inside words 2 one_in 1 1 (omega arith) to_inside refl refl

Reach-writes_example : one_writing.mem.writes ≡ total counted one_writing.pcs
Reach-writes_example = Reach-writes words 2 one_writing (omega arith) to_writing

enters_while_writing_example :
    (t : System) × Reach one_writing t
    × (get_elem? t.pcs 0 ≡ some (writing 0))
    × (get_elem? t.pcs 1 ≡ some inside)
    × (t.mem.writes ≡ 1)
enters_while_writing_example =
    enters_while_writing one_writing 0 1 0 (omega arith) refl refl (omega arith) refl

-- Both of them hold an entry.
abbrev both_writing : System
both_writing = record {
  mem = record words { tail = 2; writes = 2 };
  pcs = writing 0 ∷ writing 1 ∷ [];
}

abbrev to_both : Reach (at_rest words 2) both_writing
to_both =
    later
      (later
        (later (later to_writing (step 1 refl Move.load_tail))
          (step 1 refl (Move.reserve (omega arith) refl)))
        (step 1 refl (Move.not_busy refl)))
      (step 1 refl Move.count)

to_both_few : taken to_both ≤ 2
unfolding taken reserves
to_both_few = omega arith

words-IsSized : IsSized 1 words
words-IsSized = record { small = omega arith; mask_ones = refl; entries = refl }

none_held : (i x : ℕ) → slot_at (at_rest words 2).pcs i ≢ some x
unfolding slot_in
none_held zero x e = cc
none_held (suc zero) x e = cc
none_held (suc (suc i)) x e = cc

held_first : slot_at both_writing.pcs 0 ≡ some 0
unfolding slot_in
held_first = refl

held_second : slot_at both_writing.pcs 1 ≡ some 1
unfolding slot_in
held_second = refl

Reach-apart_example : ◌≢◌ {A = ℕ} 0 1
Reach-apart_example =
    Reach-apart 1 (at_rest words 2) words-IsSized none_held to_both 0 1 0 1 to_both_few
      (omega arith) held_first held_second
