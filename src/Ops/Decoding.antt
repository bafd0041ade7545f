-- ===== src/Ops/Decoding.antt =====
-- ops.go: the entries of different calls of the Prepare functions are different.
use iouring_go.Base.{
  ap, sym, ◌∙◌, ℕ, suc, ◌+◌, ◌%◌, ◌^◌, ◌<◌, ◌≡◌, refl, Option, none, some, List, arith,
}
use native.Mathlib.Nat.{mod-eq_of_lt}
use iouring_go.Base.Int.{ℤ, pos, negsuc, to_i32, to_u64, of_bits}
use iouring_go.Base.Outcome.{Outcome, done}
use iouring_go.Entry.{SubmitEntry, Opcode}
use iouring_go.Ring.{Ring}
use iouring_go.Ops.{Prepared, ok, Bytes}
use iouring_go.Ops.Prepare.{IsReady}
use iouring_go.Ops.Requests.{Request, call, entry_of, HasBytes}
use iouring_go.Ops.Published.{sqe_at, call-sqe_at}

-- The slice at the address and with the length of an entry.
abbrev bytes_of : SubmitEntry → Bytes
bytes_of e = record { addr = e.addr; len = e.len }

-- The request that ops.go writes an entry for, which is not what io_uring_enter(2) reads from it for
-- accept and connect. The length of a path, which statx(2) finds
-- by its end, and the offsets of splice, which may stand for none, cannot be read back.
unfoldable pub decode : SubmitEntry → Option Request
decode e = elim (e.opcode) [
  | Opcode.nop ↦ some Request.nop
  | Opcode.accept ↦ some (Request.accept e.fd e.addr e.offset e.uflags)
  | Opcode.close ↦ some (Request.close e.fd)
  | Opcode.connect ↦ some (Request.connect e.fd e.addr e.len)
  | Opcode.fadvise ↦ some (Request.fadvise e.fd e.offset e.len e.uflags)
  | Opcode.fallocate ↦ some (Request.fallocate e.fd e.len (of_bits 64 e.offset) (of_bits 64 e.addr))
  | Opcode.fsync ↦ some (Request.fsync e.fd e.uflags)
  | Opcode.poll_add ↦ some (Request.poll_add e.fd e.uflags)
  | Opcode.readv ↦ some (Request.readv e.fd (bytes_of e) (of_bits 64 e.offset))
  | Opcode.writev ↦ some (Request.writev e.fd (bytes_of e) (of_bits 64 e.offset))
  | Opcode.recv_msg ↦ some (Request.recvmsg e.fd e.addr e.uflags)
  | Opcode.timeout ↦ some (Request.timeout e.addr (of_bits 64 e.offset) e.uflags)
  | Opcode.timeout_remove ↦ some (Request.timeout_remove e.addr e.uflags)
  | Opcode.read ↦ some (Request.read e.fd (bytes_of e) e.offset e.flags)
  | Opcode.write ↦ some (Request.write e.fd (bytes_of e) e.offset e.flags)
  | Opcode.read_fixed ↦ some (Request.read_fixed e.fd (bytes_of e) e.flags)
  | Opcode.write_fixed ↦ some (Request.write_fixed e.fd (bytes_of e) e.flags)
  | Opcode.send ↦ some (Request.send e.fd (bytes_of e) e.flags)
  | Opcode.recv ↦ some (Request.recv e.fd (bytes_of e) e.flags)
  | _ ↦ none
]

-- The values of int32 and of int64.
abbrev pub IsInt : ℕ → ℤ → Type 0
IsInt half (pos n) = n < half
IsInt half (negsuc n) = n < half

abbrev pub IsI32 : ℤ → Type 0
IsI32 = IsInt (2 ^ 31)

abbrev pub IsI64 : ℤ → Type 0
IsI64 = IsInt (2 ^ 63)

abbrev pub IsU32 : ℕ → Type 0
IsU32 n = n < 2 ^ 32

-- The arguments are in the range of the fields that they are written to; statx and splice are left out.
abbrev pub InRange : Request → Type 0
InRange (Request.accept fd addr socklen flags) = IsI32 fd × IsI32 flags
InRange (Request.close fd) = IsI32 fd
InRange (Request.connect fd addr socklen) = IsI32 fd
InRange (Request.fadvise fd offset len advise) = IsI32 fd × IsI32 advise
InRange (Request.fallocate fd mode offset len) = IsI32 fd × IsI64 offset × IsI64 len
InRange (Request.fsync fd flags) = IsI32 fd × IsI32 flags
InRange Request.nop = Unit
InRange (Request.poll_add fd mask) = IsI32 fd × IsI32 mask
InRange (Request.readv fd v offset) = IsI32 fd × IsU32 v.len × IsI64 offset
InRange (Request.writev fd v offset) = IsI32 fd × IsU32 v.len × IsI64 offset
InRange (Request.recvmsg fd msg flags) = IsI32 fd × IsI32 flags
InRange (Request.timeout ts count flags) = IsI64 count × IsI32 flags
InRange (Request.timeout_remove request flags) = IsI32 flags
InRange (Request.read fd b offset flags) = IsI32 fd × IsU32 b.len
InRange (Request.write fd b offset flags) = IsI32 fd × IsU32 b.len
InRange (Request.read_fixed fd b flags) = IsI32 fd × IsU32 b.len
InRange (Request.write_fixed fd b flags) = IsI32 fd × IsU32 b.len
InRange (Request.send fd b flags) = IsI32 fd × IsU32 b.len
InRange (Request.recv fd b flags) = IsI32 fd × IsU32 b.len
InRange (Request.splice in_fd in_off out_fd out_off len flags) = ⊥
InRange (Request.statx dirfd path flags mask stat) = ⊥

to_i32-id : (z : ℤ) → IsI32 z → to_i32 z ≡ z
to_i32-id (pos n) h = ground arith
to_i32-id (negsuc n) h = ground arith

to_u64-back : (z : ℤ) → IsI64 z → of_bits 64 (to_u64 z) ≡ z
to_u64-back (pos n) h = ground arith
to_u64-back (negsuc n) h = ground arith

module _ (id : ℕ) (anon : List ℕ) where
  decode-entry_of : (q : Request) → InRange q → decode (entry_of q id anon) ≡ some q
  unfolding decode entry_of
  decode-entry_of (Request.accept fd addr socklen flags) (a, b) =
      rw ((to_i32-id fd a), (to_i32-id flags b)) refl
  decode-entry_of (Request.close fd) a = rw ((to_i32-id fd a)) refl
  decode-entry_of (Request.connect fd addr socklen) a = rw ((to_i32-id fd a)) refl
  decode-entry_of (Request.fadvise fd offset len advise) (a, b) =
      rw ((to_i32-id fd a), (to_i32-id advise b)) refl
  decode-entry_of (Request.fallocate fd mode offset len) (a, b, c) =
      rw ((to_i32-id fd a), (to_u64-back offset b), (to_u64-back len c)) refl
  decode-entry_of (Request.fsync fd flags) (a, b) = rw ((to_i32-id fd a), (to_i32-id flags b)) refl
  decode-entry_of Request.nop a = refl
  decode-entry_of (Request.poll_add fd mask) (a, b) = rw ((to_i32-id fd a), (to_i32-id mask b)) refl
  decode-entry_of (Request.readv fd v offset) (a, b, c) =
      rw ((to_i32-id fd a), (mod-eq_of_lt b), (to_u64-back offset c)) refl
  decode-entry_of (Request.writev fd v offset) (a, b, c) =
      rw ((to_i32-id fd a), (mod-eq_of_lt b), (to_u64-back offset c)) refl
  decode-entry_of (Request.recvmsg fd msg flags) (a, b) =
      rw ((to_i32-id fd a), (to_i32-id flags b)) refl
  decode-entry_of (Request.timeout ts count flags) (a, b) =
      rw ((to_u64-back count a), (to_i32-id flags b)) refl
  decode-entry_of (Request.timeout_remove request flags) a = rw ((to_i32-id flags a)) refl
  decode-entry_of (Request.read fd b offset flags) (a, c) =
      rw ((to_i32-id fd a), (mod-eq_of_lt c)) refl
  decode-entry_of (Request.write fd b offset flags) (a, c) =
      rw ((to_i32-id fd a), (mod-eq_of_lt c)) refl
  decode-entry_of (Request.read_fixed fd b flags) (a, c) =
      rw ((to_i32-id fd a), (mod-eq_of_lt c)) refl
  decode-entry_of (Request.write_fixed fd b flags) (a, c) =
      rw ((to_i32-id fd a), (mod-eq_of_lt c)) refl
  decode-entry_of (Request.send fd b flags) (a, c) = rw ((to_i32-id fd a), (mod-eq_of_lt c)) refl
  decode-entry_of (Request.recv fd b flags) (a, c) = rw ((to_i32-id fd a), (mod-eq_of_lt c)) refl
  decode-entry_of (Request.splice _ _ _ _ _ _) a = elim a [ ]
  decode-entry_of (Request.statx _ _ _ _ _) a = elim a [ ]

user_data-entry_of : (q : Request) (id : ℕ) (anon : List ℕ) → (entry_of q id anon).user_data ≡ id
unfolding entry_of
user_data-entry_of (Request.accept _ _ _ _) id anon = refl
user_data-entry_of (Request.close _) id anon = refl
user_data-entry_of (Request.connect _ _ _) id anon = refl
user_data-entry_of (Request.fadvise _ _ _ _) id anon = refl
user_data-entry_of (Request.fallocate _ _ _ _) id anon = refl
user_data-entry_of (Request.fsync _ _) id anon = refl
user_data-entry_of Request.nop id anon = refl
user_data-entry_of (Request.poll_add _ _) id anon = refl
user_data-entry_of (Request.readv _ _ _) id anon = refl
user_data-entry_of (Request.writev _ _ _) id anon = refl
user_data-entry_of (Request.recvmsg _ _ _) id anon = refl
user_data-entry_of (Request.splice _ _ _ _ _ _) id anon = refl
user_data-entry_of (Request.statx _ _ _ _ _) id anon = refl
user_data-entry_of (Request.timeout _ _ _) id anon = refl
user_data-entry_of (Request.timeout_remove _ _) id anon = refl
user_data-entry_of (Request.read _ _ _ _) id anon = refl
user_data-entry_of (Request.write _ _ _ _) id anon = refl
user_data-entry_of (Request.read_fixed _ _ _) id anon = refl
user_data-entry_of (Request.write_fixed _ _ _) id anon = refl
user_data-entry_of (Request.send _ _ _) id anon = refl
user_data-entry_of (Request.recv _ _ _) id anon = refl

some-same : {A : Type 0} {a b : A} → some a ≡ some b → a ≡ b
some-same e = cc

same_end :
    {i j : ℕ} {r s : Ring}
    → Path (Outcome (Prepared × Ring)) (done (ok i, r)) (done (ok j, s))
    → (i ≡ j) × (r ≡ s)
same_end e = (cc, cc)

-- On a ready ring whose queue the kernel has emptied, a call of a Prepare function other than statx and
-- splice, with arguments in the range of their fields and slices that are not empty, can be told from
-- the entry that the kernel takes next, whose user data is the id that was returned.
pub call-decode :
    (k fuel : ℕ) (r : Ring) (q : Request)
    → IsReady k r
    → HasBytes q
    → InRange q
    → r.sq.head % 2 ^ k ≡ r.sq.tail % 2 ^ k
    → (id : ℕ) × (r' : Ring) × (e : SubmitEntry) × (call (suc fuel) q r ≡ done (ok id, r'))
      × (sqe_at k r'.sq r.sq.head ≡ some e)
      × (decode e ≡ some q)
      × (e.user_data ≡ id)
call-decode k fuel r q ready bytes range drained =
    let (e, r', called, at, found, w, ready') = call-sqe_at k fuel r q ready bytes drained in
    let id : ℕ = (r.idx + 1) % 2 ^ 64 in
    (
      id,
      r',
      entry_of q id e.anon0,
      called,
      found,
      decode-entry_of id e.anon0 q range,
      user_data-entry_of q id e.anon0,
    )

-- Two calls of Prepare functions other than statx and splice, with arguments in the range of their
-- fields and slices that are not empty, each on a ready ring whose queue the kernel has emptied: when
-- the entries that the kernel takes next are the same, so are the functions, all their arguments and the
-- ids that were returned.
pub call-injective :
    (k fuel : ℕ) (r r₁ : Ring) (q q₁ : Request) {id id₁ : ℕ} {r' r₁' : Ring}
    → IsReady k r
    → IsReady k r₁
    → HasBytes q
    → HasBytes q₁
    → InRange q
    → InRange q₁
    → r.sq.head % 2 ^ k ≡ r.sq.tail % 2 ^ k
    → r₁.sq.head % 2 ^ k ≡ r₁.sq.tail % 2 ^ k
    → call (suc fuel) q r ≡ done (ok id, r')
    → call (suc fuel) q₁ r₁ ≡ done (ok id₁, r₁')
    → sqe_at k r'.sq r.sq.head ≡ sqe_at k r₁'.sq r₁.sq.head
    → (q ≡ q₁) × (id ≡ id₁)
call-injective k fuel r r₁ q q₁ {id} {id₁} {r'} {r₁'} ready ready₁ bytes bytes₁ range range₁ drained
      drained₁ h h₁ same =
    let (i, s, e, called, at, reads, user) = call-decode k fuel r q ready bytes range drained in
    let (i₁, s₁, e₁, called₁, at₁, reads₁, user₁) =
      call-decode k fuel r₁ q₁ ready₁ bytes₁ range₁ drained₁ in
    let (a, b) = same_end (sym called ∙ h) in
    let (a₁, b₁) = same_end (sym called₁ ∙ h₁) in
    let one : e ≡ e₁ = some-same (
      sym at
      ∙ ap (λ z. sqe_at k (Ring.sq z) r.sq.head) b
      ∙ same
      ∙ ap (λ z. sqe_at k (Ring.sq z) r₁.sq.head) (sym b₁)
      ∙ at₁) in
    (
      some-same (sym reads ∙ ap decode one ∙ reads₁),
      sym a ∙ sym user ∙ ap SubmitEntry.user_data one ∙ user₁ ∙ a₁,
    )
