-- ===== src/Standalone/Program.antt =====
-- examples/standalone/main.go: main, which reads a file in two parts through its own queues.
use iouring_go.Base.{
  ℕ, zero, suc, ◌+◌, ◌-◌, ◌/◌, ◌%◌, ◌^◌, not, List, [], ◌++◌, none, some, bit_and, ◌==◌, ltb,
  if◌then◌else◌, length, get_elem?, set,
}
use iouring_go.Base.Int.{ℤ, pos, eqb, to_i32, to_u64}
use iouring_go.Base.Outcome.{Outcome, done, spin, panic}
use iouring_go.Ring.{Result, ok, err}

-- Sqe without its padding, and Cqe.
pub record Sqe : Type 0 where
  pub opcode : ℕ
  pub flags : ℕ
  pub ioprio : ℕ
  pub fd : ℤ
  pub off : ℕ
  pub addr : ℕ
  pub len : ℕ
  pub rw_flags : ℤ
  pub user_data : ℕ

pub record Cqe : Type 0 where
  pub user_data : ℕ
  pub res : ℤ
  pub flags : ℕ

-- `Read`
abbrev pub read_op : ℕ
read_op = 22

-- What the two queues point to.
pub record Queues : Type 0 where
  pub sq_head : ℕ
  pub sq_tail : ℕ
  pub sq_mask : ℕ
  pub sq_entries : List Sqe
  pub array : List ℕ
  pub cq_head : ℕ
  pub cq_tail : ℕ
  pub cq_mask : ℕ
  pub cq_entries : List Cqe

-- The variables of main in its loop.
pub record Reading : Type 0 where
  pub queues : Queues
  pub offset : ℕ
  pub ex_content : List ℕ

-- What the kernel answers to Enter, with what it leaves in the buffer.
pub record Answer : Type 0 where
  pub res : Result ℤ
  pub queues : Queues
  pub buffer : List ℕ

-- How main goes on, or ends by log.Fatal.
pub data Exit {ℓ} (A : Type ℓ) : Type ℓ where
  goes : A → Exit A
  fatal : Exit A

-- The entry for the round `i`; `addr` is the address of the buffer, and `n` its length.
unfoldable pub prepared : ℕ → ℤ → ℕ → ℕ → ℕ → Sqe → Sqe
prepared i fd offset addr n e = record e {
  opcode = read_op;
  fd = to_i32 fd;
  off = offset;
  len = n % 2 ^ 32;
  user_data = i + 1;
  addr = addr;
}

-- `&readBuff[0]` panics on an empty buffer.
unfoldable pub queue_up : ℕ → ℤ → ℕ → ℕ → ℕ → Queues → Outcome Queues
unfolding prepared
queue_up i fd offset addr n q =
    let idx : ℕ = bit_and q.sq_tail q.sq_mask in
    elim (get_elem? q.sq_entries idx) [
      | none ↦ panic
      | some e ↦
          if n == 0
          then panic
          else if ltb idx (length q.array)
          then done (record q {
            sq_entries = set q.sq_entries idx (prepared i fd offset addr n e);
            array = set q.array idx (bit_and q.sq_head q.sq_mask);
            sq_tail = (q.sq_tail + 1) % 2 ^ 32;
          })
          else panic
    ]

-- A completion of the round adds the buffer.
abbrev pub added : ℕ → List ℕ → Reading → Cqe → Reading
added i buffer r c =
    if c.user_data == i + 1
    then record r {
      ex_content = r.ex_content ++ buffer;
      queues = record (r.queues) { cq_head = (r.queues.cq_head + 1) % 2 ^ 32 };
      offset = (r.offset + to_u64 c.res) % 2 ^ 64;
    }
    else r

-- The search, for `steps` indices from `idx` on.
unfoldable pub collect : ℕ → ℕ → ℕ → List ℕ → Reading → Outcome Reading
collect zero idx i buffer r = done r
collect (suc steps) idx i buffer r = elim (get_elem? r.queues.cq_entries idx) [
  | none ↦ panic
  | some c ↦ collect steps (idx + 1) i buffer (added i buffer r c)
]

-- What follows Enter.
unfoldable pub completed : ℕ → Answer → Reading → Outcome (Exit Reading)
unfolding collect
completed i a r = elim (a.res) [
  | err e ↦ done fatal
  | ok n ↦
      let q = a.queues in
      let from : ℕ = bit_and q.cq_head q.cq_mask in
      if not (eqb n (pos 1))
      then done fatal
      else if q.cq_head == q.cq_tail
      then done fatal
      else elim (collect (q.cq_tail - from) from i a.buffer (record r { queues = q })) [
        | done r' ↦ done (goes r')
        | spin ↦ spin
        | panic ↦ panic
      ]
]

-- `kernel` is io_uring_enter(2) with the arguments 1, 1 and EnterGetEvents, `addr` where the buffers are.
module _ (kernel : Queues → Answer) (fd : ℤ) (addr : ℕ → ℕ) (content : List ℕ) where
  -- A round of the loop.
  unfoldable pub round : ℕ → Reading → Outcome (Exit Reading)
  unfolding queue_up completed
  round i r = elim (queue_up i fd r.offset (addr i) (length content / 2) r.queues) [
    | done q ↦ completed i (kernel q) r
    | spin ↦ spin
    | panic ↦ panic
  ]

  unfoldable pub then_round : ℕ → Exit Reading → Outcome (Exit Reading)
  unfolding round
  then_round i (goes r) = round i r
  then_round i fatal = done fatal

  -- The loop, for its two rounds; the test that follows compares `ex_content` with `content`.
  unfoldable pub read_twice : Queues → Outcome (Exit Reading)
  unfolding then_round
  read_twice q = elim (round 0 (record { queues = q; offset = 0; ex_content = [] })) [
    | done e ↦ then_round 1 e
    | spin ↦ spin
    | panic ↦ panic
  ]
