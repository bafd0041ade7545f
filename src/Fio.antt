-- ===== src/Fio.antt =====
-- read_writer.go: reading, writing and seeking in a file through the ring; ring.go: getCqe.
pub mod Finding
pub mod Jobs
pub mod Reading
pub mod Seeking
pub mod Sequence
pub mod Acknowledged
pub mod Staging
pub mod Transfers
use iouring_go.Base.{
  ℕ, zero, suc, ◌+◌, ◌%◌, ◌^◌, Bool, true, false, ◌||◌, List, [], ◌∷◌, ◌++◌, Option, none, some,
  bit_and, ◌==◌, ltb, if◌then◌else◌, length, take, drop,
}
use iouring_go.Base.Int.{ℤ, pos, negsuc, is_neg, ◌+ℤ◌, ◌-ℤ◌, to_i32, to_i64, to_u64}
use iouring_go.Base.Outcome.{Outcome, M, done, spin, panic, pure, ◌>>=◌, ◌>>◌}
use iouring_go.Entry.{SubmitEntry, CompletionEntry, Opcode}
use iouring_go.Queue.{CompletionQueue}
use iouring_go.Submit.{Reservation, submit_entry, commit}
use iouring_go.Ring
use iouring_go.Ring.{Ring, Kernel, on_sq, next_id, enter, enter_get_events}
use iouring_go.Ops.{Prepared, Bytes, Fill, first, store, user_data_at}
use iouring_go.Ops.Calls.{errno_of}
use iouring_go.Ops.Misc

-- `ringFIO`: the ring, the descriptor, the offset, and the indices sent to the completer.
pub record Fio : Type 0 where
  pub ring : Ring
  pub fd : ℤ
  pub offset : ℤ
  pub seen : List ℕ

-- The errors of the methods; `nil` is none.
pub data IoError : Type 0 where
  nil eof ring_unavailable unknown_whence : IoError
  errno : ℕ → IoError

abbrev pub IoResult : Type 0
IoResult = ℤ × IoError

-- What one pass over the entries comes to.
pub data Look : Type 0 where
  found : ℕ → CompletionEntry → Look
  again : Look
  missing : Look

-- The first loop of getCqe, from index `x` on.
unfoldable pub look_from : ℕ → ℕ → ℕ → List CompletionEntry → Look
look_from req end x [] = missing
look_from req end x (cqe ∷ rest) =
    if cqe.user_data == req
    then found x cqe
    else if x == end
    then again
    else look_from req end (suc x) rest

-- A pass of getCqe sees the queue in one state in its first loop, and in another in its second.
abbrev pub View : Type 0
View = CompletionQueue × CompletionQueue

-- The second loop; an index behind the entries panics.
unfoldable pub look_again : ℕ → CompletionQueue → Outcome Look
unfolding look_from
look_again req cq =
    let end : ℕ = bit_and cq.tail cq.mask in
    elim (look_from req end 0 (take end cq.entries)) [
      | found x cqe ↦ done (found x cqe)
      | again ↦ done again
      | missing ↦ if ltb (length cq.entries) end then panic else done missing
    ]

unfoldable pub look : ℕ → View → Outcome Look
unfolding look_again
look req (cq, cq') =
    elim (look_from req (bit_and cq.tail cq.mask) (bit_and cq.head cq.mask)
      (drop (bit_and cq.head cq.mask) cq.entries)) [
        | found x cqe ↦ done (found x cqe)
        | again ↦ done again
        | missing ↦ look_again req cq'
      ]

-- A completion that was found: an error, or the offset moves and the completer is told the index.
unfoldable pub take_result : ℕ → CompletionEntry → M Fio IoResult
take_result x cqe i =
    if is_neg cqe.res
    then done ((pos 0, errno (errno_of cqe.res)), i)
    else done (
      (cqe.res, nil),
      record i { offset = to_i64 (i.offset +ℤ cqe.res); seen = i.seen ++ x ∷ [] },
    )

-- `findCqe:` of `(*ringFIO).getCqe`, over the states that the passes see; it spins when these run
-- out.
unfoldable pub find_cqe : List View → ℕ → M Fio IoResult
unfolding look
find_cqe [] req i = spin
find_cqe (v ∷ vs) req i = elim (look req v) [
  | done (found x cqe) ↦ take_result x cqe i
  | done again ↦ find_cqe vs req i
  | done missing ↦ find_cqe vs req i
  | spin ↦ spin
  | panic ↦ panic
]

-- `getCqe` of ring.go, which gives up when the second loop finds nothing.
pub data Got : Type 0 where
  got : ℤ → ℕ → Got
  failed : ℕ → Got
  cqe_missing : Got

abbrev got_of : CompletionEntry → Got
got_of cqe = if is_neg cqe.res then failed (errno_of cqe.res) else got cqe.res cqe.flags

unfoldable pub ring_get_cqe : List View → ℕ → Outcome Got
unfolding look
ring_get_cqe [] req = spin
ring_get_cqe (v ∷ vs) req = elim (look req v) [
  | done (found x cqe) ↦ done (got_of cqe)
  | done again ↦ ring_get_cqe vs req
  | done missing ↦ done cqe_missing
  | spin ↦ spin
  | panic ↦ panic
]

-- A function over the ring, run on a file.
abbrev pub on_ring : {A : Type 0} → M Ring A → M Fio A
on_ring m i = elim (m i.ring) [
  | done (a, r') ↦ done (a, record i { ring = r' })
  | spin ↦ spin
  | panic ↦ panic
]

module _ (kernel : Kernel) (fuel : ℕ) (views : List View) where
  after_enter : ℕ → Ring.Result ℤ → M Fio IoResult
  after_enter req (Ring.err e) = pure (pos 0, errno e)
  after_enter req (Ring.ok n) = find_cqe views req

  -- `(*ringFIO).getCqe`
  unfoldable pub get_cqe : ℕ → ℕ → ℕ → M Fio IoResult
  unfolding after_enter
  get_cqe req count min = elim (ltb 0 count || ltb 0 min) [
    | true ↦ do res ← on_ring (enter kernel fuel count min enter_get_events); after_enter req res
    | false ↦ find_cqe views req
  ]
