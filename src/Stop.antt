-- ===== src/Stop.antt =====
-- ring.go: Stop, closeSq and closeCq, on a ring that New has mapped.
pub mod Unmapped
use iouring_go.Base.{
  ℕ, Bool, true, false, not, List, [], ◌∷◌, ◌++◌, Option, none, some, bit_and, ◌==◌, if◌then◌else◌,
}
use iouring_go.Setup.{Params, SqLayout, CqLayout, feat_single_mmap}

-- What Stop works on. `sq` and `cq` are the pointer and the size of the queues, `none` for nil;
-- `unmapped` are the regions given back.
pub record Open : Type 0 where
  pub flags : ℕ
  pub sq : Option (ℕ × ℕ)
  pub cq : Option (ℕ × ℕ)
  pub submitter : Bool
  pub submitter_stopped : Bool
  pub unmapped : List (ℕ × ℕ)

-- `New` around MmapRing: the fields `ptr` and `Size` of the two queues.
unfoldable pub opened : Params → SqLayout → CqLayout → Bool → Open
opened p sq cq submitter = record {
  flags = p.flags;
  sq = some (sq.ptr, sq.size);
  cq = some (cq.ptr, cq.size);
  submitter = submitter;
  submitter_stopped = false;
  unmapped = [];
}

-- What Stop returns.
pub data Stopped : Type 0 where
  nil : Stopped
  unmap_sq unmap_cq close_fd : ℕ → Stopped

-- `if err := …; err != nil { return err }`
unfoldable pub and_then : Stopped × Open → (Open → Stopped × Open) → Stopped × Open
and_then (nil, o) k = k o
and_then (e, o) k = (e, o)

-- `munmap` gives the errno for an address and a length, and `close` that of the descriptor.
module _ (munmap : ℕ → ℕ → ℕ) (close : ℕ) where
  -- `closeSq`
  unfoldable pub close_sq : Open → Stopped × Open
  close_sq o = elim (o.sq) [
    | none ↦ (nil, o)
    | some (ptr, size) ↦
        if not (munmap ptr size == 0)
        then (unmap_sq (munmap ptr size), o)
        else (nil, record o { sq = none; unmapped = o.unmapped ++ (ptr, size) ∷ [] })
  ]

  -- `closeCq`
  unfoldable pub close_cq : Open → Stopped × Open
  close_cq o = elim (o.cq) [
    | none ↦ (nil, o)
    | some (ptr, size) ↦
        if not (munmap ptr size == 0)
        then (unmap_cq (munmap ptr size), o)
        else (nil, record o { cq = none; unmapped = o.unmapped ++ (ptr, size) ∷ [] })
  ]

  -- The end of Stop: the submitter, then the descriptor.
  unfoldable pub close_ring : Open → Stopped × Open
  close_ring o =
      let o' = if o.submitter then record o { submitter_stopped = true } else o in
      if close == 0 then (nil, o') else (close_fd close, o')

  unfoldable pub maybe_close_cq : Open → Stopped × Open
  unfolding close_cq
  maybe_close_cq o = if bit_and o.flags feat_single_mmap == 0 then close_cq o else (nil, o)

  -- `Stop`
  unfoldable pub stop : Open → Stopped × Open
  unfolding close_sq close_ring maybe_close_cq and_then
  stop o = and_then (close_sq o) (λ o'. and_then (maybe_close_cq o') close_ring)
