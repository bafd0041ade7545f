-- ===== src/Locks/Slots.antt =====
-- ring.go: the slots that SubmitEntry hands to goroutines which hold them at the same time.
use iouring_go.Base.{
  ℕ, ◌+◌, ◌-◌, ◌%◌, ◌^◌, ◌≤◌, ◌<◌, ◌≡◌, ◌≢◌, refl, sym, ap, subst, ◌∙◌, ◌⊎◌, inl, inr, Option, none,
  some, List, get_elem?, set, arith, bit_and, get_elem?-set_self, get_elem?-set_ne, lt_of_get,
}
use iouring_go.Base.Bits.{bit_and_mask, pow-pos}
use native.Mathlib.Nat.{mod-lt, mod-add-mod}
use native.Mathlib.Decide.{ℕ_discrete}
use iouring_go.Base.Bits.{add-mod_cancel}
use iouring_go.Submit.Slots.{pow-lt}
use iouring_go.Locks.{Shared, Pc, Move, System, Reach, next_of, step, here, later}

-- The slot that a goroutine has reserved and not given up or published.
unfoldable pub slot_in : Pc → Option ℕ
slot_in (Pc.reserved s) = some s
slot_in (Pc.clear s) = some s
slot_in (Pc.writing s) = some s
slot_in (Pc.completing s w) = some s
slot_in (Pc.published s) = some s
slot_in _ = none

abbrev pub slot_at : List Pc → ℕ → Option ℕ
slot_at pcs i = elim (get_elem? pcs i) [ none ↦ none | some p ↦ slot_in p ]

-- How many of the steps of a run reserve a slot.
unfoldable pub reserves : {m m' : Shared} {p p' : Pc} → Move m p m' p' → ℕ
reserves (Move.reserve le e) = 1
reserves _ = 0

unfoldable pub taken : {s t : System} → Reach s t → ℕ
unfolding reserves
taken here = 0
taken (later r (step i h mv)) = reserves mv + taken r

-- What a step does to the tail and to the slot of its goroutine.
data Effect (m m' : Shared) (p p' : Pc) : ℕ → Type 0 where
  same : m'.tail ≡ m.tail → slot_in p' ≡ slot_in p → Effect m m' p p' 0
  drop : m'.tail ≡ m.tail → slot_in p' ≡ none → Effect m m' p p' 0
  took : m'.tail ≡ next_of m m.tail → slot_in p' ≡ some (bit_and m.tail m.mask) → Effect m m' p p' 1

-- The words fit a queue of 2 ^ k entries.
pub record IsSized (k : ℕ) (m : Shared) : Type 0 where
  pub small : k < 31
  pub mask_ones : m.mask ≡ 2 ^ k - 1
  pub entries : m.n_entries ≡ 2 ^ k

module _ {k : ℕ} {m : Shared} (h : IsSized k m) where
  pub mask-mod : (t : ℕ) → bit_and t m.mask ≡ t % 2 ^ k
  mask-mod t = ap (bit_and t) h.mask_ones ∙ bit_and_mask k t

  pub next-mod : (t : ℕ) → next_of m t ≡ t % 2 ^ k + 1
  next-mod t = omega (arith, mask-mod t, mod-lt t (pow-pos k), pow-lt k h.small)

  Move-IsSized : {m' : Shared} {p p' : Pc} → Move m p m' p' → IsSized k m'
  Move-IsSized (Move.lock e) = record {
    small = h.small;
    mask_ones = h.mask_ones;
    entries = h.entries;
  }
  Move-IsSized mv = record { small = h.small; mask_ones = h.mask_ones; entries = h.entries }

  Move-Effect : {m' : Shared} {p p' : Pc} (mv : Move m p m' p') → Effect m m' p p' (reserves mv)
  unfolding slot_in reserves
  Move-Effect Move.load_tail = same refl refl
  Move-Effect (Move.reserve le e) =
      took (ap (next_of m) (sym e)) (ap (λ x. some (bit_and x m.mask)) (sym e))
  Move-Effect (Move.restart gt e) =
      absurd
        (omega (arith, gt, next-mod m.tail, h.entries, mod-lt m.tail (pow-pos k), ap (next_of m) e))
  Move-Effect (Move.busy e) = drop refl refl
  Move-Effect Move.store_array = drop refl refl
  Move-Effect (Move.no_writes e) = drop refl refl
  Move-Effect mv = same refl refl

some-same : {x y : ℕ} → some x ≡ some y → x ≡ y
some-same e = cc

none-ne-some : {x : ℕ} → none ≢ some x
none-ne-some e = cc

-- The slots that are held after `c` of them were reserved from the tail `t₀` on: each is one of these,
-- and no two goroutines hold the same.
record Held (k t₀ c : ℕ) (s : System) : Type 0 where
  sized : IsSized k s.mem
  tail : s.mem.tail % 2 ^ k ≡ (t₀ + c) % 2 ^ k
  lap : (i x : ℕ) → slot_at s.pcs i ≡ some x → (j : ℕ) × (j < c) × (x ≡ (t₀ + j) % 2 ^ k)
  apart : (i j x : ℕ) → slot_at s.pcs i ≡ some x → slot_at s.pcs j ≡ some x → i ≡ j

slot_at_of : (pcs : List Pc) (i : ℕ) {p : Pc} → get_elem? pcs i ≡ some p → slot_at pcs i ≡ slot_in p
slot_at_of pcs i h = ground (arith, h)

slot_at_self :
    (pcs : List Pc) (i : ℕ) {p : Pc} (p' : Pc)
    → get_elem? pcs i ≡ some p
    → slot_at (set pcs i p') i ≡ slot_in p'
slot_at_self pcs i p' h = ground (arith, get_elem?-set_self pcs i p' (lt_of_get pcs i h))

slot_at_ne : (pcs : List Pc) (i j : ℕ) (p' : Pc) → i ≢ j → slot_at (set pcs i p') j ≡ slot_at pcs j
slot_at_ne pcs i j p' ne = ground (arith, get_elem?-set_ne pcs p' ne)

module _ {k t₀ c : ℕ} {s : System} (held : Held k t₀ c s) (i : ℕ) where
  -- What a goroutine holds after a step of `i`: what it held before, or, if it is `i`, what `p'` holds.
  held_before :
      {p : Pc} (p' : Pc) (j x : ℕ)
      → get_elem? s.pcs i ≡ some p
      → slot_at (set s.pcs i p') j ≡ some x
      → ((i ≡ j) × (slot_in p' ≡ some x)) ⊎ ((i ≢ j) × (slot_at s.pcs j ≡ some x))
  held_before p' j x h e = elim (ℕ_discrete i j) [
    | yes q ↦ inl (q, sym (slot_at_self s.pcs i p' h) ∙ ap (slot_at (set s.pcs i p')) q ∙ e)
    | no q ↦ inr (q, sym (slot_at_ne s.pcs i j p' q) ∙ e)
  ]

  kept-Held :
      {m : Shared} (p' : Pc)
      → ((j x : ℕ) → slot_at (set s.pcs i p') j ≡ some x → slot_at s.pcs j ≡ some x)
      → IsSized k m
      → m.tail ≡ s.mem.tail
      → Held k t₀ (c + 0) (record { mem = m; pcs = set s.pcs i p' })
  kept-Held p' kept sized t = record {
    sized = sized;
    tail = ap (λ y. y % 2 ^ k) t ∙ held.tail ∙ ap (λ y. (t₀ + y) % 2 ^ k) (omega arith);
    lap = λ j x e. let (n, lt, at) = held.lap j x (kept j x e) in (n, omega (arith, lt), at);
    apart = λ j j' x e e'. held.apart j j' x (kept j x e) (kept j' x e');
  }

  -- The slot at the tail was held by nobody.
  fresh : (j x : ℕ) → c < 2 ^ k → bit_and s.mem.tail s.mem.mask ≡ x → slot_at s.pcs j ≢ some x
  fresh j x room new e =
      let (n, lt, at) = held.lap j x e in
      let now : n ≡ c =
        add-mod_cancel (2 ^ k) t₀ n c (pow-pos k) (omega (arith, lt, room)) room
          (sym at ∙ sym new ∙ mask-mod held.sized s.mem.tail ∙ held.tail) in
      absurd (omega (arith, now, lt))

  took-Held :
      {m : Shared} {p : Pc} (p' : Pc)
      → get_elem? s.pcs i ≡ some p
      → IsSized k m
      → c + 1 ≤ 2 ^ k
      → m.tail ≡ next_of s.mem s.mem.tail
      → slot_in p' ≡ some (bit_and s.mem.tail s.mem.mask)
      → Held k t₀ (c + 1) (record { mem = m; pcs = set s.pcs i p' })
  took-Held p' h sized below t new =
      let room : c < 2 ^ k = omega (arith, below) in
      record {
        sized = sized;
        tail =
            ap (λ y. y % 2 ^ k) (t ∙ next-mod held.sized s.mem.tail)
            ∙ ap (λ y. (y + 1) % 2 ^ k) held.tail
            ∙ mod-add-mod (t₀ + c) (2 ^ k) 1
            ∙ ap (λ y. y % 2 ^ k) (omega arith);
        lap = λ j x e. elim (held_before p' j x h e) [
          | inl (q, at) ↦ (
            c,
            omega arith,
            sym (some-same (sym new ∙ at)) ∙ mask-mod held.sized s.mem.tail ∙ held.tail,
          )
          | inr (q, at) ↦ let (n, lt, at') = held.lap j x at in (n, omega (arith, lt), at')
        ];
        apart = λ j j' x e e'. elim (held_before p' j x h e) [
          | inl (q, at) ↦ elim (held_before p' j' x h e') [
            | inl (q', at') ↦ sym q ∙ q'
            | inr (q', at') ↦ absurd (fresh j' x room (some-same (sym new ∙ at)) at')
          ]
          | inr (q, at) ↦ elim (held_before p' j' x h e') [
            | inl (q', at') ↦ absurd (fresh j x room (some-same (sym new ∙ at')) at)
            | inr (q', at') ↦ held.apart j j' x at at'
          ]
        ];
      }

  Effect-Held :
      {m : Shared} {p p' : Pc} {n : ℕ}
      → get_elem? s.pcs i ≡ some p
      → IsSized k m
      → c + n ≤ 2 ^ k
      → Effect s.mem m p p' n
      → Held k t₀ (c + n) (record { mem = m; pcs = set s.pcs i p' })
  Effect-Held {p' = p'} h sized room (same t e) =
      kept-Held p'
        (λ j x f. elim (held_before p' j x h f) [
          | inl (q, at) ↦ ap (slot_at s.pcs) (sym q) ∙ slot_at_of s.pcs i h ∙ sym e ∙ at
          | inr (q, at) ↦ at
        ])
        sized t
  Effect-Held {p' = p'} h sized room (drop t e) =
      kept-Held p'
        (λ j x f. elim (held_before p' j x h f) [
          | inl (q, at) ↦ absurd (none-ne-some (sym e ∙ at))
          | inr (q, at) ↦ at
        ])
        sized t
  Effect-Held {p' = p'} h sized room (took t e) = took-Held p' h sized room t e

Step-Held :
    {k t₀ c : ℕ} {s : System} {m : Shared} {p p' : Pc} (i : ℕ)
    → get_elem? s.pcs i ≡ some p
    → (mv : Move s.mem p m p') → c + reserves mv ≤ 2 ^ k
    → Held k t₀ c s
    → Held k t₀ (c + reserves mv) (record { mem = m; pcs = set s.pcs i p' })
Step-Held i h mv room held =
    Effect-Held held i h (Move-IsSized held.sized mv) room (Move-Effect held.sized mv)

module _ (k : ℕ) (s : System) (sized : IsSized k s.mem)
    (rest : (i x : ℕ) → slot_at s.pcs i ≢ some x) where
  Reach-Held : {t : System} (r : Reach s t) → taken r ≤ 2 ^ k → Held k s.mem.tail (taken r) t
  unfolding taken
  Reach-Held here few = record {
    sized = sized;
    tail = ap (λ y. y % 2 ^ k) (omega arith);
    lap = λ i x e. absurd (rest i x e);
    apart = λ i j x e e'. absurd (rest i x e);
  }
  Reach-Held {t = u} (later r (step i h mv)) few =
      subst (λ n. Held k s.mem.tail n u) (omega arith)
        (Step-Held i h mv (omega (arith, few)) (Reach-Held r (omega (arith, few))))

  -- From a state in which no goroutine holds an entry, and as long as the whole run has reserved at most
  -- as many entries as the queue has, those given back or published included, two goroutines that hold an entry, in whatever order all of them make their
  -- steps, hold different ones.
  pub Reach-apart :
      {t : System} (r : Reach s t) (i j x y : ℕ)
      → taken r ≤ 2 ^ k
      → i ≢ j
      → slot_at t.pcs i ≡ some x
      → slot_at t.pcs j ≡ some y
      → x ≢ y
  Reach-apart {t} r i j x y few ne at at' e =
      ne ((Reach-Held r few).apart i j x at (at' ∙ ap some (sym e)))
