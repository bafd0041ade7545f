-- ===== src/Listener/Deaf.antt =====
-- conn.go, walkCq: what the listener does not hear.
use iouring_go.Base.{
  ℕ, suc, ◌+◌, ◌<◌, ◌≡◌, ◌≢◌, refl, Bool, true, false, not, ◌&&◌, List, [], ◌∷◌, none, some,
  bit_and, if◌then◌else◌, length, get_elem?, get_elem?-drop, get_elem?-take, take, drop, arith, ◌⊎◌,
  sym, ◌∙◌,
}
use iouring_go.Base.Int.{to_u64}
use iouring_go.Base.Outcome.{done}
use iouring_go.Entry.{CompletionEntry}
use iouring_go.Queue.{CompletionQueue}
use iouring_go.Lookup.{is_seen}
use iouring_go.Listener.{Conn, Conns, conn_of, look, walk_cq}

-- No entry is for a connection of the map.
abbrev Foreign : Conns → List CompletionEntry → Type 0
Foreign conns es =
    (j : ℕ) (c : CompletionEntry) → get_elem? es j ≡ some c → conn_of c.user_data conns ≡ none

look-Foreign :
    (i idx : ℕ) (b : Bool) (conns : Conns) (es : List CompletionEntry)
    → Foreign conns es
    → look i es idx b conns ≡ none
unfolding look
look-Foreign i idx b conns [] f = refl
look-Foreign i idx b conns (c ∷ es) f =
    let front : Bool = is_seen c && not b in
    ground (
      arith,
      f 0 c refl,
      look-Foreign (i + 1) (if front then i else idx) (if front then b else true) conns es
          (λ j d. f (suc j) d),
    )

-- When the map holds the listening socket alone, and every completion carries the number 0 or the
-- descriptor of the socket, as the polls of onListen do, and neither is the id in the map, then, with
-- the slot of the tail inside the queue, walkCq finds nothing: it accepts no connection and leaves the queue as it is.
pub walk_cq-deaf :
    (cq : CompletionQueue) (conn : Conn)
    → bit_and cq.tail cq.mask < length cq.entries
    → ((j : ℕ) (c : CompletionEntry)
        → get_elem? cq.entries j ≡ some c
        → (c.user_data ≡ 0) ⊎ (c.user_data ≡ to_u64 conn.fd))
    → conn.id ≢ 0
    → conn.id ≢ to_u64 conn.fd
    → walk_cq cq (conn ∷ []) ≡ done (none, cq)
unfolding walk_cq conn_of
walk_cq-deaf cq conn within polls named apart =
    let h : ℕ = bit_and cq.head cq.mask in
    let t : ℕ = bit_and cq.tail cq.mask in
    let foreign : (j : ℕ) (c : CompletionEntry)
        → get_elem? cq.entries j ≡ some c
        → conn_of c.user_data (conn ∷ []) ≡ none =
      λ j c at. ground (arith, polls j c at) in
    let front : Foreign (conn ∷ []) (take (suc t) cq.entries) =
      λ j c at. foreign j c (get_elem?-take (suc t) j cq.entries at) in
    let back : Foreign (conn ∷ []) (drop h (take (suc t) cq.entries)) =
      λ j c at. front (h + j) c (sym (get_elem?-drop h j (take (suc t) cq.entries)) ∙ at) in
    ground (
      arith,
      look-Foreign h h false (conn ∷ []) (drop h (take (suc t) cq.entries)) back,
      look-Foreign 0 0 false (conn ∷ []) (take (suc t) cq.entries) front,
    )
