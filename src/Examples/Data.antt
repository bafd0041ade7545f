-- ===== src/Examples/Data.antt =====
-- A ring with two submission entries and four completion entries.
use iouring_go.Base.{ℕ, List, [], ◌∷◌, none, false}
use iouring_go.Base.Int.{pos, negsuc}
use iouring_go.Entry.{SubmitEntry, CompletionEntry, Opcode}
use iouring_go.Queue.{SubmitQueue, CompletionQueue}
use iouring_go.Ring.{Ring}
use iouring_go.Setup.{Params}

abbrev pub blank : SubmitEntry
blank = record {
  opcode = Opcode.nop;
  flags = 0;
  ioprio = 0;
  fd = pos 0;
  offset = 0;
  addr = 0;
  len = 0;
  uflags = pos 0;
  user_data = 0;
  anon0 = [];
}

abbrev pub small_sq : SubmitQueue
small_sq = record {
  size = 72;
  head = 0;
  tail = 0;
  mask = 1;
  flags = 0;
  dropped = 0;
  array = 0 ∷ 0 ∷ [];
  entries = blank ∷ blank ∷ [];
  entered = 0;
  writes = 0;
}

abbrev pub cqe : ℕ → CompletionEntry
cqe id = record { user_data = id; res = pos 8; flags = 0 }

abbrev pub small_cq : ℕ → ℕ → List CompletionEntry → CompletionQueue
small_cq head tail entries = record {
  size = 96;
  head = head;
  tail = tail;
  mask = 3;
  overflow = 0;
  flags = 0;
  entries = entries;
}

abbrev pub params : Params
params = record {
  sq_entries = 2;
  cq_entries = 4;
  flags = 1;
  sq_thread_cpu = 0;
  sq_thread_idle = 0;
  features = 1;
  wq_fd = 0;
  sq_offset = record {
    head = 0;
    tail = 4;
    ring_mask = 8;
    entries = 12;
    flags = 16;
    dropped = 20;
    array = 64;
  };
  cq_offset = record {
    head = 24;
    tail = 28;
    ring_mask = 32;
    entries = 36;
    overflow = 40;
    cqes = 128;
    flags = 44;
  };
}

abbrev pub small_ring : Ring
small_ring = record {
  fd = pos 3;
  p = params;
  cq = small_cq 0 0 (cqe 0 ∷ cqe 0 ∷ cqe 0 ∷ cqe 0 ∷ []);
  sq = small_sq;
  idx = 0;
  debug = false;
  file_reg = none;
  deadline = 0;
  event_fd = negsuc 0;
}
