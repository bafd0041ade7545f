-- ===== src/New.antt =====
-- ring.go: New; ring_option.go: the options; FileReadWriter and the accessors of a Ring.
pub mod Opening
pub mod First
pub mod Use
use iouring_go.Base.{
  ℕ, Bool, true, false, List, [], ◌∷◌, ◌++◌, Option, none, some, if◌then◌else◌, length,
}
use iouring_go.Base.Int.{ℤ, pos, negsuc, to_i32, to_i64}
use iouring_go.Base.Outcome.{Outcome, done, spin, panic}
use iouring_go.Queue.{SubmitQueue, CompletionQueue}
use iouring_go.Register.{Call, Returned, register_event_fd, register_event_fd_async}
use iouring_go.Registry.{FileRegistry, Reply, new_file_registry, register}
use iouring_go.Setup.{
  Params, SqRingOffset, CqRingOffset, SqLayout, CqLayout, Result, ok, err, setup, mmap_ring,
}
use iouring_go.Ring.{Ring}
use iouring_go.Fio.{Fio}

-- The options; a handler is known by a number, a duration is one.
pub data RingOption : Type 0 where
  with_debug : RingOption
  with_event_fd : ℕ → ℤ → Bool → RingOption
  with_file_registry : RingOption
  with_id : ℕ → RingOption
  with_enter_err_handler : ℕ → RingOption
  with_deadline : ℕ → RingOption

-- A Ring with what else New and the options set: `submitters` are the deadlines of the submitters
-- that run, the newest first, which is the submitter of the ring; `registered` are the calls of
-- io_uring_register(2), in order; `completions` is the capacity of that channel.
pub record NewRing : Type 0 where
  pub ring : Ring
  pub enter_err_handler : Option ℕ
  pub submitters : List ℕ
  pub registered : List Call
  pub completions : ℕ
  pub running : Bool

-- `Params{}`
abbrev pub zero_params : Params
zero_params = record {
  sq_entries = 0;
  cq_entries = 0;
  flags = 0;
  sq_thread_cpu = 0;
  sq_thread_idle = 0;
  features = 0;
  wq_fd = 0;
  sq_offset = record {
    head = 0;
    tail = 0;
    ring_mask = 0;
    entries = 0;
    flags = 0;
    dropped = 0;
    array = 0;
  };
  cq_offset = record {
    head = 0;
    tail = 0;
    ring_mask = 0;
    entries = 0;
    overflow = 0;
    cqes = 0;
    flags = 0;
  };
}

-- The queues in the mapped pages, for what these hold.
abbrev pub Memory : Type 0
Memory = SqLayout → CqLayout → SubmitQueue × CompletionQueue

-- The state that New gives a Ring before the options.
unfoldable pub plain : ℤ → Params → SqLayout → CqLayout → SubmitQueue × CompletionQueue → NewRing
plain fd p sl cl (sq, cq) = record {
  ring = record {
    fd = fd;
    p = p;
    cq = record cq { size = cl.size };
    sq = record sq { size = sl.size; entered = 0; writes = 0 };
    idx = 0;
    debug = false;
    file_reg = none;
    deadline = 0;
    event_fd = negsuc 0;
  };
  enter_err_handler = none;
  submitters = [];
  registered = [];
  completions = length cq.entries;
  running = false;
}

-- `syscall` gives the errno of io_uring_register(2), and `eventfd` is eventfd(2).
module _ (syscall : Call → ℕ) (eventfd : ℕ → ℤ → Result ℤ) where
  -- The end of WithEventFd: the call of RegisterEventFd or of RegisterEventFdAsync, and its error.
  unfoldable pub with_fd : ℤ → Bool → NewRing → Option ℕ × NewRing
  with_fd fd async n =
      let (c, e) =
        if async
        then register_event_fd_async syscall (n.ring.fd) fd
        else register_event_fd syscall (n.ring.fd) fd in
      (
        e,
        record n { ring = record (n.ring) { event_fd = fd }; registered = n.registered ++ c ∷ [] },
      )

  -- What an option does: its error, and the ring.
  unfoldable pub apply : RingOption → NewRing → Option ℕ × NewRing
  unfolding with_fd
  apply with_debug n = (none, record n { ring = record (n.ring) { debug = true } })
  apply (with_event_fd initval flags async) n = elim (eventfd initval flags) [
    | err e ↦ (some e, n)
    | ok fd ↦ with_fd fd async n
  ]
  apply with_file_registry n =
      (none, record n { ring = record (n.ring) { file_reg = some (new_file_registry n.ring.fd) } })
  apply (with_id id) n = (none, record n { ring = record (n.ring) { idx = id } })
  apply (with_enter_err_handler f) n = (none, record n { enter_err_handler = some f })
  apply (with_deadline d) n =
      (none, record n { ring = record (n.ring) { deadline = d }; submitters = d ∷ n.submitters })

  -- `for _, opt := range opts`, then the goroutines of the ring and its completer.
  unfoldable pub apply_all : List RingOption → NewRing → Result NewRing
  unfolding apply
  apply_all [] n = ok (record n { running = true })
  apply_all (o ∷ os) n =
      let (e, n') = apply o n in
      let rest = apply_all os n' in elim e [ some e ↦ err e | none ↦ rest ]

  -- `New`. `setup_call` is io_uring_setup(2), and `filled` what it writes to the parameters.
  module _ (setup_call : ℕ → Params → ℕ × ℕ) (filled : ℕ → Params → Params) (mmap : ℕ → ℕ → ℕ × ℕ)
      (memory : Memory) where
    unfoldable pub new : ℕ → Option Params → List RingOption → Result NewRing
    unfolding apply_all plain
    new size given opts =
        let p : Params = elim given [ none ↦ zero_params | some q ↦ q ] in
        elim (setup setup_call size p) [
          | err e ↦ err e
          | ok fd ↦ elim (mmap_ring mmap (filled size p)) [
            | err e ↦ err e
            | ok (sl, cl) ↦ apply_all opts (plain (pos fd) (filled size p) sl cl (memory sl cl))
          ]
        ]

-- What FileReadWriter returns: an error of Seek, or the file with what Register returned, if there is a
-- registry.
pub data Opened : Type 0 where
  seek_failed : ℕ → Opened
  file : Fio → Option Reply → Opened

-- `fileReadWriter`; `seek` is the result of `f.Seek(0, 0)`. The file keeps the ring's state.
unfoldable pub file_read_writer : (Call → ℕ) → Result ℤ → ℤ → Ring → Outcome Opened
file_read_writer syscall (err e) fd r = done (seek_failed e)
file_read_writer syscall (ok o) fd r = elim (r.file_reg) [
  | none ↦ done (file (record { ring = r; fd = to_i32 fd; offset = to_i64 o; seen = [] }) none)
  | some reg ↦ elim (register syscall reg fd) [
    | done (reply, reg') ↦ done (
        file
          (record {
            ring = record r { file_reg = some reg' };
            fd = to_i32 fd;
            offset = to_i64 o;
            seen = [];
          })
          (some reply))
    | spin ↦ spin
    | panic ↦ panic
  ]
]

-- `CQ`, `SQ`, `EventFd`, `Fd` and `FileRegistry`
unfoldable pub cq : Ring → CompletionQueue
cq r = r.cq

unfoldable pub sq : Ring → SubmitQueue
sq r = r.sq

unfoldable pub event_fd : Ring → ℤ
event_fd r = r.event_fd

unfoldable pub fd : Ring → ℤ
fd r = r.fd

unfoldable pub file_registry : Ring → Option FileRegistry
file_registry r = r.file_reg
