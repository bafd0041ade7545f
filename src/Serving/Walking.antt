-- ===== src/Serving/Walking.antt =====
-- conn.go, walkCq: it ends.
use iouring_go.Base.{
  ℕ, suc, ◌+◌, ◌<◌, ◌≤◌, ◌≡◌, refl, Bool, true, false, not, ◌&&◌, List, [], ◌∷◌, Option, none, some,
  bit_and, ◌==◌, ltb, if◌then◌else◌, length, get_elem?-some, take, drop, length-take, length-drop,
  arith, set, length-set, inl, inr, Option-cases, Bool-cases,
}
use iouring_go.Base.Outcome.{Outcome, done}
use iouring_go.Entry.{CompletionEntry}
use iouring_go.Queue.{CompletionQueue}
use iouring_go.Lookup.{is_seen, marked}
use iouring_go.Listener.{Conn, Conns, conn_of, look, mark, walk_cq}

-- Where a loop of walkCq has found something.
look-in :
    (i idx : ℕ) (b : Bool) (conns : Conns) (es : List CompletionEntry) (j s : ℕ) (c : Conn)
    → look i es idx b conns ≡ some (j, s, c)
    → (i ≤ j) × (j < i + length es)
unfolding look
look-in i idx b conns [] j s c h = absurd cc
look-in i idx b conns (e ∷ es) j s c h = elim (Option-cases (conn_of e.user_data conns)) [
  | inl p ↦
      let front : Bool = is_seen e && not b in
      let rest =
        look-in (i + 1) (if front then i else idx) (if front then b else true) conns es j s c
          (ground (arith, p, h)) in
      (omega (arith, rest.0), omega (arith, rest.1))
  | inr (d, p) ↦ (ground (arith, p, h), ground (arith, p, h))
]

-- How walkCq ends for a queue: with nothing changed, or with a connection, and the queue's tail and size
-- as they were.
pub data Walked (cq : CompletionQueue) : Option Conn → CompletionQueue → Type 0 where
  nothing : Walked cq none cq
  something :
      {c : Conn} {cq' : CompletionQueue}
      → length cq'.entries ≡ length cq.entries
      → cq'.tail ≡ cq.tail
      → cq'.mask ≡ cq.mask
      → Walked cq (some c) cq'

module _ (cq : CompletionQueue) (conns : Conns) where
  abbrev pub Walks : Outcome (Option Conn × CompletionQueue) → Type 0
  Walks o =
      (got : Option Conn) × (cq' : CompletionQueue) × (o ≡ done (got, cq')) × Walked cq got cq'

  mark-Walks : (i s : ℕ) (c : Conn) → i < length cq.entries → Walks (mark i s c cq)
  unfolding mark
  mark-Walks i s c lt =
      let (e, at) = get_elem?-some cq.entries i lt in
      (
        some c,
        record cq {
          entries = set cq.entries i (marked e);
          head = if ltb cq.head s then s else cq.head;
        },
        ground (arith, at),
        something (length-set cq.entries i (marked e)) refl refl,
      )

  pub walk_cq-Walks : bit_and cq.tail cq.mask < length cq.entries → Walks (walk_cq cq conns)
  unfolding walk_cq
  walk_cq-Walks fits =
      let h : ℕ = bit_and cq.head cq.mask in
      let t : ℕ = bit_and cq.tail cq.mask in
      let front : List CompletionEntry = take (suc t) cq.entries in
      elim (Bool-cases (h == t)) [
        | inl p ↦ (none, cq, ground (arith, p), nothing)
        | inr p ↦ elim (Option-cases (look h (drop h front) h false conns)) [
          | inr ((i, s, c), e) ↦
              let b = look-in h h false conns (drop h front) i s c e in
              let (got, cq', m, w) =
                mark-Walks i s c
                  (omega (arith, b.1, length-drop h front, length-take (suc t) cq.entries)) in
              (got, cq', ground (arith, p, e, m), w)
          | inl e ↦ elim (Option-cases (look 0 front 0 false conns)) [
            | inr ((i, s, c), e') ↦
                let b = look-in 0 0 false conns front i s c e' in
                let (got, cq', m, w) =
                  mark-Walks i s c (omega (arith, b.1, length-take (suc t) cq.entries)) in
                (got, cq', ground (arith, p, e, e', m, fits), w)
            | inl e' ↦ (none, cq, ground (arith, p, e, e', fits), nothing)
          ]
        ]
      ]
