-- ===== src/Locks/Overlap.antt =====
-- enterLock does not wait for the writers.
use iouring_go.Base.{
  ℕ, ◌≡◌, ◌≢◌, refl, List, sym, ◌∙◌, some, get_elem?, set, arith, lt_of_get, get_elem?-set_self,
  get_elem?-set_ne,
}
use iouring_go.Locks.{
  Pc, Move, System, Reach, idle, writing, locking, checking, trying, inside, step, here, later,
}

-- Whenever a goroutine is writing its entry, `writes` is counted and nobody has entered, another
-- one gets inside without the first one making a step.
pub enters_while_writing :
    (s : System) (i j slot : ℕ)
    → i ≢ j
    → get_elem? s.pcs i ≡ some (writing slot)
    → get_elem? s.pcs j ≡ some idle
    → s.mem.writes ≢ 0
    → s.mem.entered ≡ 0
    → (t : System) × Reach s t
      × (get_elem? t.pcs i ≡ some (writing slot))
      × (get_elem? t.pcs j ≡ some inside)
      × (t.mem.writes ≡ s.mem.writes)
enters_while_writing s i j slot ne w e busy free =
    let present = lt_of_get s.pcs j e in
    let p₁ = set s.pcs j locking in
    let p₂ = set p₁ j checking in
    let p₃ = set p₂ j trying in
    let at₁ = get_elem?-set_self s.pcs j locking present in
    let at₂ = get_elem?-set_self p₁ j checking (lt_of_get p₁ j at₁) in
    let at₃ = get_elem?-set_self p₂ j trying (lt_of_get p₂ j at₂) in
    (
      record { mem = record (s.mem) { entered = 1 }; pcs = set p₃ j inside },
      later
          (later (later (later here (step j e Move.start_enter)) (step j at₁ (Move.writers busy)))
            (step j at₂ (Move.not_held (omega arith))))
          (step j at₃ (Move.lock free)),
      apart p₃ inside (apart p₂ trying (apart p₁ checking (apart s.pcs locking w))),
      get_elem?-set_self p₃ j inside (lt_of_get p₃ j at₃),
      refl,
    )
  where
    apart :
        (ps : List Pc) (p : Pc)
        → get_elem? ps i ≡ some (writing slot)
        → get_elem? (set ps j p) i ≡ some (writing slot)
    apart ps p h = get_elem?-set_ne ps p (λ x. ne (sym x)) ∙ h
