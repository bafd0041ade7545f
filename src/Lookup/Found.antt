-- ===== src/Lookup/Found.antt =====
-- types.go, EntryBy: the entry that it finds, and where the head then stands.
use iouring_go.Base.{
  get_elem?-drop, get_elem?-take, get_elem?-some, ℕ, zero, suc, ◌+◌, ◌-◌, ◌<◌, ◌≤◌, ◌≡◌, ◌≢◌, refl,
  ap, sym, ◌∙◌, true, false, List, [], ◌∷◌, Option, none, some, bit_and, ◌==◌, if◌then◌else◌,
  length, get_elem?, set, take, drop, arith, Bool-cases, inl, inr,
}
use iouring_go.Base.Outcome.{done}
use iouring_go.Entry.{CompletionEntry}
use iouring_go.Queue.{CompletionQueue}
use iouring_go.Lookup.{Walk, is_seen, noticed, counted, search, marked, take_entry, entry_by}

-- How many entries at the front of a list were seen.
unfoldable pub leading : List CompletionEntry → ℕ
leading [] = 0
leading (c ∷ cs) = if is_seen c then suc (leading cs) else 0

-- No entry before the index `n` carries the data.
abbrev pub Free : ℕ → ℕ → List CompletionEntry → Type 0
Free user_data n es =
    (j : ℕ) (c : CompletionEntry) → j < n → get_elem? es j ≡ some c → c.user_data ≢ user_data

-- Behind an entry that was not seen the head is not moved.
search-behind :
    (user_data i n : ℕ) (es : List CompletionEntry) (w : Walk) {c : CompletionEntry}
    → get_elem? es n ≡ some c
    → c.user_data ≡ user_data
    → Free user_data n es
    → w.seen_end ≡ true
    → search user_data i es w ≡ some (i + n, w.idx)
unfolding search
search-behind u i n [] w at same free e = ground arith
search-behind u i zero (d ∷ es) w at same free e = ground arith
search-behind u i (suc n) (d ∷ es) w at same free e =
    let rest =
      search-behind u (i + 1) n es (counted i (noticed d w)) at same
        (λ j x lt. free (suc j) x (omega (arith, lt))) (ground arith) in
    ground (arith, rest, free 0 d (omega arith) refl)

search-found :
    (user_data i n : ℕ) (es : List CompletionEntry) (w : Walk) {c : CompletionEntry}
    → get_elem? es n ≡ some c
    → c.user_data ≡ user_data
    → Free user_data n es
    → w.seen_end ≡ false
    → w.idx ≡ i
    → search user_data i es w ≡ some (i + n, i + leading (take (suc n) es))
unfolding search leading
search-found u i n [] w at same free e f = ground arith
search-found u i zero (d ∷ es) w at same free e f = ground arith
search-found u i (suc n) (d ∷ es) w at same free e f = elim (Bool-cases (is_seen d)) [
  | inl p ↦
      let rest =
        search-found u (i + 1) n es (counted i (noticed d w)) at same
          (λ j x lt. free (suc j) x (omega (arith, lt))) (ground arith) (ground arith) in
      ground (arith, rest, p, free 0 d (omega arith) refl)
  | inr p ↦
      let rest =
        search-behind u (i + 1) n es (counted i (noticed d w)) at same
          (λ j x lt. free (suc j) x (omega (arith, lt))) (ground arith) in
      ground (arith, rest, p, free 0 d (omega arith) refl)
]

pub search-absent :
    (user_data i : ℕ) (es : List CompletionEntry) (w : Walk)
    → ((j : ℕ) (c : CompletionEntry) → get_elem? es j ≡ some c → c.user_data ≢ user_data)
    → search user_data i es w ≡ none
unfolding search
search-absent u i [] w free = refl
search-absent u i (d ∷ es) w free = ground (
  arith,
  free 0 d refl,
  search-absent u (i + 1) es (counted i (noticed d w)) (λ j c. free (suc j) c),
)

leading-le : (n : ℕ) (es : List CompletionEntry) → leading (take n es) ≤ n
unfolding leading
leading-le zero es = omega arith
leading-le (suc n) [] = omega arith
leading-le (suc n) (c ∷ cs) = ground (arith, leading-le n cs)

leading-length : (n : ℕ) (es : List CompletionEntry) → leading (take n es) ≤ length es
unfolding leading
leading-length zero es = omega arith
leading-length (suc n) [] = omega arith
leading-length (suc n) (c ∷ cs) = ground (arith, leading-length n cs)

leading-seen :
    (n j : ℕ) (es : List CompletionEntry) {c : CompletionEntry}
    → j < leading (take n es)
    → get_elem? es j ≡ some c
    → is_seen c ≡ true
unfolding leading
leading-seen zero j es lt at = absurd (omega arith)
leading-seen (suc n) j [] lt at = absurd (omega arith)
leading-seen (suc n) zero (d ∷ es) lt at = ground arith
leading-seen (suc n) (suc j) (d ∷ es) lt at = leading-seen n j es (ground arith) at

-- Where the loops of EntryBy look: from the head to the end, and when nothing is there for the
-- data, from the start up to the slot of the tail.
pub data Region (user_data : ℕ) (c : CompletionQueue) (start : ℕ) (es : List CompletionEntry)
    : Type 0 where
  ahead : start ≡ bit_and c.head c.mask → es ≡ drop start c.entries → Region user_data c start es
  around :
      start ≡ 0
      → es ≡ take (suc (bit_and c.tail c.mask)) c.entries
      → ((j : ℕ) (e : CompletionEntry)
          → get_elem? (drop (bit_and c.head c.mask) c.entries) j ≡ some e
          → e.user_data ≢ user_data)
      → Region user_data c start es

-- The entry `e` at `x` is returned with its mark, and the head moved on from `start` to an index `s`.
pub record Finds (start x : ℕ) (e : CompletionEntry) (c : CompletionQueue)
    (got : Option CompletionEntry) (c' : CompletionQueue) : Type 0 where
  pub entry : got ≡ some (marked e)
  pub entries : c'.entries ≡ set c.entries x (marked e)
  pub s : ℕ
  pub head : c'.head ≡ (if s == c.size then 0 else s)
  pub from : start ≤ s
  pub to : s ≤ x + 1
  pub passed :
      (j : ℕ) (d : CompletionEntry)
      → start ≤ j
      → j < s
      → get_elem? c.entries j ≡ some d
      → is_seen d ≡ true

module _ {user_data start : ℕ} {c : CompletionQueue} {es : List CompletionEntry} where
  in_entries :
      {e : CompletionEntry} (n : ℕ)
      → Region user_data c start es
      → get_elem? es n ≡ some e
      → get_elem? c.entries (start + n) ≡ some e
  in_entries n (ahead s l) at =
      sym (get_elem?-drop start n c.entries) ∙ ap (λ xs. get_elem? xs n) (sym l) ∙ at
  in_entries n (around s l free) at =
      ap (get_elem? c.entries) (omega (arith, s))
      ∙ get_elem?-take (suc (bit_and c.tail c.mask)) n c.entries
          (ap (λ xs. get_elem? xs n) (sym l) ∙ at)

  Region-seen :
      (n j : ℕ) (d : CompletionEntry)
      → Region user_data c start es
      → start ≤ j
      → j < start + leading (take n es)
      → get_elem? c.entries j ≡ some d
      → is_seen d ≡ true
  Region-seen n j d r le lt at =
      let i : ℕ = j - start in
      let here : start + i ≡ j = omega (arith, le) in
      let inside : i < leading (take n es) = omega (arith, le, lt) in
      let (d', at') = get_elem?-some es i (omega (arith, inside, leading-length n es)) in
      let same : some d ≡ some d' =
        sym at ∙ ap (get_elem? c.entries) (sym here) ∙ in_entries i r at' in
      leading-seen n i es inside (at' ∙ sym same)

  search-Region :
      {e : CompletionEntry} (n : ℕ)
      → Region user_data c start es
      → bit_and c.head c.mask ≢ bit_and c.tail c.mask
      → get_elem? es n ≡ some e
      → e.user_data ≡ user_data
      → Free user_data n es
      → entry_by c user_data ≡ take_entry (start + n) (start + leading (take (suc n) es)) c
  unfolding entry_by
  search-Region n (ahead s l) ne at same free = ground (
    arith,
    s,
    l,
    search-found user_data start n es (record { idx = start; seen = false; seen_end = false }) at
        same free refl refl,
  )
  search-Region n (around s l absent) ne at same free =
      let h : ℕ = bit_and c.head c.mask in
      ground (
        arith,
        s,
        l,
        search-absent user_data h (drop h c.entries)
            (record { idx = h; seen = false; seen_end = false }) absent,
        search-found user_data 0 n es (record { idx = 0; seen = false; seen_end = false }) at same
            free refl refl,
      )

-- EntryBy finds the first entry for the data, from the head to the end of the queue or, when there is
-- none, from its start up to the slot of the tail, unless head and tail stand at the same slot. It
-- marks the entry as seen and returns it, and moves the head at most one past it, over entries
-- only that were seen before or are zero; from the size in bytes it sets the head to 0.
pub entry_by-Finds :
    (user_data start n : ℕ) (c : CompletionQueue) (es : List CompletionEntry) (e : CompletionEntry)
    → Region user_data c start es
    → bit_and c.head c.mask ≢ bit_and c.tail c.mask
    → get_elem? es n ≡ some e
    → e.user_data ≡ user_data
    → Free user_data n es
    → (got : Option CompletionEntry) × (c' : CompletionQueue) × (entry_by c user_data
        ≡ done (got, c'))
      × Finds start (start + n) e c got c'
unfolding take_entry
entry_by-Finds user_data start n c es e r ne at same free = (
  _,
  _,
  search-Region n r ne at same free ∙ taken,
  record {
    entry = refl;
    entries = refl;
    s = start + leading (take (suc n) es);
    head = refl;
    from = omega arith;
    to = omega (arith, leading-le (suc n) es);
    passed = λ j d le lt. Region-seen (suc n) j d r le lt;
  },
)
  where
    taken :
        take_entry (start + n) (start + leading (take (suc n) es)) c
        ≡ done (
          some (marked e),
          record c {
            entries = set c.entries (start + n) (marked e);
            head =
                if start + leading (take (suc n) es) == c.size
                then 0
                else start + leading (take (suc n) es);
          },
        )
    taken = ground (arith, in_entries n r at)
