-- ===== src/Lookup/Total.antt =====
-- types.go, EntryBy: it ends, with an entry or without one.
use iouring_go.Base.{
  ℕ, zero, suc, ◌+◌, ◌<◌, ◌≡◌, ◌≢◌, ◌⊎◌, inl, inr, refl, false, List, [], ◌∷◌, Option, none, some,
  bit_and, ◌==◌, length, get_elem?, take, drop, arith, Bool-cases,
}
use iouring_go.Base.Outcome.{done}
use iouring_go.Entry.{CompletionEntry}
use iouring_go.Queue.{CompletionQueue}
use iouring_go.Lookup.{entry_by}
use iouring_go.Lookup.Found.{Region, ahead, around, Finds, Free, entry_by-Finds, search-absent}

-- No entry of a list carries the data.
abbrev pub Absent : ℕ → List CompletionEntry → Type 0
Absent user_data es =
    (j : ℕ) (c : CompletionEntry) → get_elem? es j ≡ some c → c.user_data ≢ user_data

-- The first entry of a list that carries the data.
pub record First (user_data : ℕ) (es : List CompletionEntry) : Type 0 where
  pub n : ℕ
  pub e : CompletionEntry
  pub at : get_elem? es n ≡ some e
  pub same : e.user_data ≡ user_data
  pub free : Free user_data n es

cons-Absent :
    {user_data : ℕ} (d : CompletionEntry) (es : List CompletionEntry)
    → d.user_data ≢ user_data
    → Absent user_data es
    → Absent user_data (d ∷ es)
cons-Absent d es ne a zero c at = ground (arith, ne)
cons-Absent d es ne a (suc j) c at = a j c at

cons-Free :
    {user_data n : ℕ} (d : CompletionEntry) (es : List CompletionEntry)
    → d.user_data ≢ user_data
    → Free user_data n es
    → Free user_data (suc n) (d ∷ es)
cons-Free d es ne a zero c lt at = ground (arith, ne)
cons-Free d es ne a (suc j) c lt at = a j c (omega (arith, lt)) at

pub First-cases :
    (user_data : ℕ) (es : List CompletionEntry) → First user_data es ⊎ Absent user_data es
First-cases u [] = inr (λ j c at. ground arith)
First-cases u (d ∷ es) = elim (Bool-cases (d.user_data == u)) [
  | inl p ↦ inl (record {
    n = 0;
    e = d;
    at = refl;
    same = ground (arith, p);
    free = λ j c lt at. absurd (omega (arith, lt));
  })
  | inr p ↦
      let ne : d.user_data ≢ u = ground (arith, p) in
      elim (First-cases u es) [
        | inl f ↦ inl (record {
          n = suc f.n;
          e = f.e;
          at = f.at;
          same = f.same;
          free = cons-Free d es ne f.free;
        })
        | inr a ↦ inr (cons-Absent d es ne a)
      ]
]

-- How EntryBy ends for a queue: with the first entry for the data, marked, or without one because
-- head and tail stand at one slot, or no entry where it looks carries the data.
pub data Looked (user_data : ℕ) (c : CompletionQueue)
    : Option CompletionEntry → CompletionQueue → Type 0 where
  there :
      {start : ℕ} {es : List CompletionEntry} {got : Option CompletionEntry} {c' : CompletionQueue}
      → Region user_data c start es
      → (f : First user_data es) → Finds start (start + f.n) f.e c got c'
      → Looked user_data c got c'
  level : bit_and c.head c.mask ≡ bit_and c.tail c.mask → Looked user_data c none c
  absent :
      Absent user_data (drop (bit_and c.head c.mask) c.entries)
      → Absent user_data (take (suc (bit_and c.tail c.mask)) c.entries)
      → Looked user_data c none c

module _ (user_data : ℕ) (c : CompletionQueue) where
  abbrev pub Total : Type 0
  Total =
      (got : Option CompletionEntry) × (c' : CompletionQueue) × (entry_by c user_data
        ≡ done (got, c'))
      × Looked user_data c got c'

  found-Total :
      {start : ℕ} {es : List CompletionEntry}
      → Region user_data c start es
      → bit_and c.head c.mask ≢ bit_and c.tail c.mask
      → First user_data es
      → Total
  found-Total {start} {es} r ne f =
      let (got, c', h, finds) =
        entry_by-Finds user_data start f.n c es f.e r ne f.at f.same f.free in
      (got, c', h, there r f finds)

  absent-Total :
      bit_and c.tail c.mask < length c.entries
      → bit_and c.head c.mask ≢ bit_and c.tail c.mask
      → Absent user_data (drop (bit_and c.head c.mask) c.entries)
      → Absent user_data (take (suc (bit_and c.tail c.mask)) c.entries)
      → Total
  unfolding entry_by
  absent-Total fits ne a b =
      let h : ℕ = bit_and c.head c.mask in
      let t : ℕ = bit_and c.tail c.mask in
      (
        none,
        c,
        ground (
          arith,
          search-absent user_data h (drop h c.entries)
              (record { idx = h; seen = false; seen_end = false }) a,
          search-absent user_data 0 (take (suc t) c.entries)
              (record { idx = 0; seen = false; seen_end = false }) b,
        ),
        absent a b,
      )

  level-Total : bit_and c.head c.mask ≡ bit_and c.tail c.mask → Total
  unfolding entry_by
  level-Total e = (none, c, ground arith, level e)

  pub entry_by-Looked : bit_and c.tail c.mask < length c.entries → Total
  entry_by-Looked fits =
      let h : ℕ = bit_and c.head c.mask in
      let t : ℕ = bit_and c.tail c.mask in
      elim (Bool-cases (h == t)) [
        | inl p ↦ level-Total (ground (arith, p))
        | inr p ↦
            let ne : h ≢ t = ground (arith, p) in
            elim (First-cases user_data (drop h c.entries)) [
              | inl f ↦ found-Total (ahead refl refl) ne f
              | inr a ↦ elim (First-cases user_data (take (suc t) c.entries)) [
                | inl f ↦ found-Total (around refl refl a) ne f
                | inr b ↦ absent-Total fits ne a b
              ]
            ]
      ]
