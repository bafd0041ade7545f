-- ===== src/Locks/Safety.antt =====
-- What holds in every state that goroutines can reach from a ring at rest.
use iouring_go.Base.{
  ℕ, zero, suc, ◌+◌, ◌^◌, ◌≤◌, ◌<◌, ◌≡◌, ◌≢◌, refl, some, get_elem?, set, length, arith, length-set,
  replicate, length-replicate, sym,
}
use native.Mathlib.Decide.{dec_lt}
use iouring_go.Locks.{
  Shared, Pc, Move, System, Step, Reach, idle, writing, completing, panicked, inside, step, here,
  later,
}
use iouring_go.Locks.Counting.{total, total-set, total_has, total_two, total-le}

-- A goroutine that `writes` counts, one that holds `entered`, and one that has panicked.
abbrev pub counted : Pc → ℕ
counted (writing s) = 1
counted (completing s w) = 1
counted _ = 0

abbrev pub holding : Pc → ℕ
holding inside = 1
holding _ = 0

abbrev pub failed : Pc → ℕ
failed panicked = 1
failed _ = 0

-- `writes` is the number of writers and `entered` that of the goroutines inside, at most one;
-- nobody has panicked.
pub record Inv (s : System) : Type 0 where
  pub few : length s.pcs < 2 ^ 32
  pub writers_counted : s.mem.writes ≡ total counted s.pcs
  pub inside_counted : s.mem.entered ≡ total holding s.pcs
  pub one_inside : s.mem.entered ≤ 1
  pub none_failed : total failed s.pcs ≡ 0

counted-le : (p : Pc) → counted p ≤ 1
counted-le idle = omega arith
counted-le p = ground arith

module _ {s : System} (inv : Inv s) (i : ℕ) where
  -- The sums after a step from `p` to `p'`.
  record Sums (p p' : Pc) : Type 0 where
    writers : total counted (set s.pcs i p') + counted p ≡ total counted s.pcs + counted p'
    insiders : total holding (set s.pcs i p') + holding p ≡ total holding s.pcs + holding p'
    failures : total failed (set s.pcs i p') + failed p ≡ total failed s.pcs + failed p'
    own : counted p ≤ total counted s.pcs
    mine : holding p ≤ total holding s.pcs
    room : total counted (set s.pcs i p') < 2 ^ 32
    same : length (set s.pcs i p') < 2 ^ 32

  sums : {p : Pc} (p' : Pc) → get_elem? s.pcs i ≡ some p → Sums p p'
  sums p' h = record {
    writers = total-set counted s.pcs i p' h;
    insiders = total-set holding s.pcs i p' h;
    failures = total-set failed s.pcs i p' h;
    own = total_has counted s.pcs i h;
    mine = total_has holding s.pcs i h;
    room =
        omega (arith, total-le counted (set s.pcs i p') counted-le, length-set s.pcs i p', inv.few);
    same = omega (arith, length-set s.pcs i p', inv.few);
  }

  Move-Inv :
      {p p' : Pc} {m : Shared}
      → Move s.mem p m p'
      → Sums p p'
      → Inv (record { mem = m; pcs = set s.pcs i p' })
  Move-Inv Move.load_tail g = omega arith
  Move-Inv (Move.reserve a b) g = omega arith
  Move-Inv (Move.no_writes e) g = absurd (omega arith)
  Move-Inv (Move.uncount e) g = omega arith
  Move-Inv (Move.lock e) g = omega arith
  Move-Inv Move.unlock g = omega arith
  Move-Inv Move.count g = omega arith
  Move-Inv mv g = omega arith

-- Every step keeps the invariant.
pub Step-Inv : {s t : System} → Step s t → Inv s → Inv t
Step-Inv (step i {p' = q} h mv) inv = Move-Inv inv i mv (sums inv i q h)

pub Reach-Inv : {s t : System} → Inv s → Reach s t → Inv t
Reach-Inv inv here = inv
Reach-Inv inv (later r st) = Step-Inv st (Reach-Inv inv r)

-- A ring that nobody uses, and `n` goroutines.
abbrev pub at_rest : Shared → ℕ → System
at_rest m n = record { mem = record m { entered = 0; writes = 0 }; pcs = replicate n idle }

total-idle : (w : Pc → ℕ) (n : ℕ) → w idle ≡ 0 → total w (replicate n idle) ≡ 0
unfolding total
total-idle w zero h = refl
total-idle w (suc n) h = omega (arith, h, total-idle w n h)

pub at_rest-Inv : (m : Shared) (n : ℕ) → n < 2 ^ 32 → Inv (at_rest m n)
at_rest-Inv m n few = record {
  few = omega (arith, length-replicate n idle);
  writers_counted = sym (total-idle counted n refl);
  inside_counted = sym (total-idle holding n refl);
  one_inside = omega arith;
  none_failed = total-idle failed n refl;
}

-- In whatever order fewer than 2 ^ 32 goroutines make their steps, from a ring at rest, none of them
-- meets the panic of completeWrite.
pub Reach-not_panicked :
    (m : Shared) (n : ℕ) (t : System) (i : ℕ)
    → n < 2 ^ 32
    → Reach (at_rest m n) t
    → get_elem? t.pcs i ≢ some panicked
Reach-not_panicked m n t i few r h =
    absurd
      (omega (arith, total_has failed t.pcs i h, (Reach-Inv (at_rest-Inv m n few) r).none_failed))

-- In whatever order fewer than 2 ^ 32 goroutines make their steps, from a ring at rest, there is never
-- more than one of them between enterLock and enterUnlock, and `entered` is 1 while there is one.
pub Reach-one_inside :
    (m : Shared) (n : ℕ) (t : System) (i j : ℕ)
    → n < 2 ^ 32
    → Reach (at_rest m n) t
    → get_elem? t.pcs i ≡ some inside
    → get_elem? t.pcs j ≡ some inside
    → (i ≡ j) × (t.mem.entered ≡ 1)
Reach-one_inside m n t i j few r h h' =
    let inv = Reach-Inv (at_rest-Inv m n few) r in
    let entered : t.mem.entered ≡ 1 =
      omega (arith, total_has holding t.pcs i h, inv.inside_counted, inv.one_inside) in
    elim (dec_lt i j) [
      | yes l ↦
          absurd
            (omega (arith, total_two holding t.pcs i j l h h', inv.inside_counted, inv.one_inside))
      | no l ↦ elim (dec_lt j i) [
        | yes l' ↦
            absurd (
              omega
                (arith, total_two holding t.pcs j i l' h' h, inv.inside_counted, inv.one_inside))
        | no l' ↦ (omega arith, entered)
      ]
    ]

-- In whatever order fewer than 2 ^ 32 goroutines make their steps, from a ring at rest, `writes` is the
-- number of those that have an entry and have not completed it.
pub Reach-writes :
    (m : Shared) (n : ℕ) (t : System)
    → n < 2 ^ 32
    → Reach (at_rest m n) t
    → t.mem.writes ≡ total counted t.pcs
Reach-writes m n t few r = (Reach-Inv (at_rest-Inv m n few) r).writers_counted
