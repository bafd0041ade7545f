-- ===== src/Completer/Order.antt =====
-- completer.go: in whatever order the entries are reported, the head ends behind them all.
use iouring_go.Base.{
  ℕ, zero, suc, ◌+◌, ◌-◌, ◌%◌, ◌^◌, ◌<◌, ◌≤◌, ◌≡◌, refl, sym, ◌∙◌, ap, subst, Bool, true, false,
  List, [], ◌∷◌, some, ◌==◌, if◌then◌else◌, length, arith, bit_and, leb, ltb, ◌&&◌,
}
use native.Mathlib.Nat.{mod-lt, mod-eq_of_lt, add-mod}
use native.Mathlib.Decide.{dec_lt}
use iouring_go.Base.Bits.{bit_and_mask, pow-pos, mod-mod_pow}
use iouring_go.Queue.{CompletionQueue}
use iouring_go.Completer.{Completer, mem, add, on_seen, run, new_completer}
use iouring_go.Completer.Advance.{mem-add, move_head-Advances}

-- The state after the entries of `acked` were reported, from the slot `start` on: the head stands
-- at the first that was not, and the map holds those behind it.
pub record Tracks (k start head₀ : ℕ) (acked : ℕ → Bool) (c : Completer) : Type 0 where
  pub mask_ones : c.cq.mask ≡ 2 ^ k - 1
  pub from : start ≤ c.cq.head % 2 ^ k
  pub passed : (j : ℕ) → start ≤ j → j < c.cq.head % 2 ^ k → acked j ≡ true
  pub next : acked (c.cq.head % 2 ^ k) ≡ false
  pub rest : (j : ℕ) → c.cq.head % 2 ^ k ≤ j → mem j c.unacked ≡ acked j
  pub total : c.cq.head ≡ (head₀ + (c.cq.head % 2 ^ k - start)) % 2 ^ 32

mask-mod :
    (k : ℕ) (c : Completer)
    → c.cq.mask ≡ 2 ^ k - 1
    → bit_and c.cq.head c.cq.mask ≡ c.cq.head % 2 ^ k
mask-mod k c e = rw e (bit_and_mask k c.cq.head)

abbrev with_one : ℕ → (ℕ → Bool) → ℕ → Bool
with_one id acked j = if id == j then true else acked j

u32-slot : (k a : ℕ) → k ≤ 32 → a % 2 ^ 32 % 2 ^ k ≡ a % 2 ^ k
u32-slot k a h =
    let e : k + (32 - k) ≡ 32 = omega arith in
    subst (λ (w : ℕ). a % 2 ^ w % 2 ^ k ≡ a % 2 ^ k) e (mod-mod_pow (32 - k) k a)

slot-moved :
    (k h n : ℕ) → k ≤ 32 → h % 2 ^ k + n < 2 ^ k → (h + n % 2 ^ 32) % 2 ^ 32 % 2 ^ k ≡ h % 2 ^ k + n
slot-moved k h n small b = omega (
  arith,
  u32-slot k (h + n % 2 ^ 32) small,
  u32-slot k n small,
  add-mod h (n % 2 ^ 32) (2 ^ k),
  mod-eq_of_lt {n = n} {m = 2 ^ k} (omega arith),
  mod-eq_of_lt b,
  ap (λ (x : ℕ). (h % 2 ^ k + x) % 2 ^ k)
      (u32-slot k n small ∙ mod-eq_of_lt {n = n} {m = 2 ^ k} (omega arith)),
)

-- How far one report moves the head.
moved_room :
    (k h n limit : ℕ) (acked : ℕ → Bool)
    → limit < 2 ^ k
    → ((j : ℕ) → acked j ≡ true → j < limit)
    → ((i : ℕ) → 0 ≤ i → i < n → acked (h % 2 ^ k + i) ≡ true)
    → h % 2 ^ k + n < 2 ^ k
moved_room k h zero limit acked room below passed = omega (arith, mod-lt h (pow-pos k))
moved_room k h (suc n) limit acked room below passed =
    omega (arith, below (h % 2 ^ k + n) (passed n (omega arith) (omega arith)))

cover :
    (h n j : ℕ) (P : ℕ → Bool)
    → (j < h → P j ≡ true)
    → ((i : ℕ) → 0 ≤ i → i < n → P (h + i) ≡ true)
    → j < h + n
    → P j ≡ true
cover h n j P below above b = elim (dec_lt j h) [
  | yes p ↦ below p
  | no p ↦
      let e : h + (j - h) ≡ j = omega arith in
      subst (λ (x : ℕ). P x ≡ true) e (above (j - h) (omega arith) (omega arith))
]

one_more : (id j : ℕ) (acked : ℕ → Bool) → acked j ≡ true → with_one id acked j ≡ true
one_more id j acked h = ground arith

-- The state after one report is that of `acked` with one entry more.
on_seen-Tracks :
    (k start head₀ limit id : ℕ) (acked : ℕ → Bool) (c : Completer)
    → k ≤ 32
    → limit < 2 ^ k
    → ((j : ℕ) → with_one id acked j ≡ true → j < limit)
    → Tracks k start head₀ acked c
    → (c' : Completer) × (on_seen c id ≡ some c') × Tracks k start head₀ (with_one id acked) c'
unfolding on_seen
on_seen-Tracks k start head₀ limit id acked c small room below t =
    let h : ℕ = c.cq.head % 2 ^ k in
    let u : List ℕ = add id c.unacked in
    let (n, u', e, a) = move_head-Advances (length u + 1) h 0 u (omega arith) in
    let known : (j : ℕ) → h ≤ j → mem j u ≡ with_one id acked j =
      λ j p. ground (arith, mem-add j id c.unacked, t.rest j) in
    let passed : (i : ℕ) → 0 ≤ i → i < n → with_one id acked (h + i) ≡ true =
      λ i p q. sym (known (h + i) (omega arith)) ∙ a.passed i p q in
    let slot =
      slot-moved k c.cq.head n small
        (moved_room k c.cq.head n limit (with_one id acked) room below passed) in
    (
      record { unacked = u'; cq = record (c.cq) { head = (c.cq.head + n % 2 ^ 32) % 2 ^ 32 } },
      ground (arith, mask-mod k c t.mask_ones),
      record {
        mask_ones = t.mask_ones;
        from = omega (arith, slot, t.from);
        passed = λ j p q.
            cover h n j (with_one id acked) (λ r. one_more id j acked (t.passed j p r)) passed
              (omega (arith, slot));
        next = ap (with_one id acked) slot ∙ sym (known (h + n) (omega arith)) ∙ a.stops;
        rest = λ j p. a.kept j (omega (arith, slot)) ∙ known j (omega (arith, slot));
        total = omega (arith, slot, t.total, t.from);
      },
    )

-- The entries that are reported in the end.
unfoldable pub with_all : List ℕ → (ℕ → Bool) → ℕ → Bool
with_all [] acked = acked
with_all (id ∷ ids) acked = with_all ids (with_one id acked)

pub with_all-mem :
    (ids : List ℕ) (acked : ℕ → Bool) (j : ℕ)
    → with_all ids acked j ≡ (if mem j ids then true else acked j)
unfolding with_all mem
with_all-mem [] acked j = refl
with_all-mem (id ∷ ids) acked j = ground (arith, with_all-mem ids (with_one id acked) j)

some_more : (a b : Bool) → b ≡ true → (if a then true else b) ≡ true
some_more true b h = refl
some_more false b h = h

pub run-Tracks :
    (k start head₀ limit : ℕ) (ids : List ℕ) (acked : ℕ → Bool) (c : Completer)
    → k ≤ 32
    → limit < 2 ^ k
    → ((j : ℕ) → with_all ids acked j ≡ true → j < limit)
    → Tracks k start head₀ acked c
    → (c' : Completer) × (run c ids ≡ some c') × Tracks k start head₀ (with_all ids acked) c'
unfolding run with_all
run-Tracks k start head₀ limit [] acked c small room below t = (c, refl, t)
run-Tracks k start head₀ limit (id ∷ ids) acked c small room below t =
    let (c', e, t') =
      on_seen-Tracks k start head₀ limit id acked c small room
        (λ j h.
          below j (
            with_all-mem ids (with_one id acked) j ∙ some_more (mem j ids) (with_one id acked j) h))
        t in
    let (c'', e', t'') =
      run-Tracks k start head₀ limit ids (with_one id acked) c' small room below t' in
    (c'', ground arith, t'')

unfoldable pub nobody : ℕ → Bool
nobody j = false

pub bool_eta : (b : Bool) → (if b then true else false) ≡ b
bool_eta true = refl
bool_eta false = refl

pub new_completer-Tracks :
    (k : ℕ) (cq : CompletionQueue)
    → cq.mask ≡ 2 ^ k - 1
    → cq.head < 2 ^ 32
    → Tracks k (cq.head % 2 ^ k) cq.head nobody (new_completer cq)
unfolding nobody new_completer mem
new_completer-Tracks k cq mask u32 = record {
  mask_ones = mask;
  from = omega arith;
  passed = λ j p q. absurd (omega arith);
  next = refl;
  rest = λ j p. refl;
  total = omega arith;
}

-- The first entry that was not reported, where those from `s` to `s + m` were.
reached :
    (s m h : ℕ) (acked : ℕ → Bool)
    → ((j : ℕ) → acked j ≡ (leb s j && ltb j (s + m)))
    → s ≤ h
    → acked h ≡ false
    → ((j : ℕ) → s ≤ j → j < h → acked j ≡ true)
    → h ≡ s + m
reached s m h acked region from next passed = elim (dec_lt (s + m) h) [
  | yes p ↦ absurd (ground (arith, region (s + m), passed (s + m)))
  | no p ↦ ground (arith, region h)
]

-- On a queue with a mask of k ones, k at most 32, where the `m` entries from the head on do not reach
-- the end of the queue: when they are reported, in any order and with repeats, and no others are,
-- the completer, started with an empty map, ends with the head moved over them all, and its map
-- holds nothing from there on.
pub run-any_order :
    (k m : ℕ) (ids : List ℕ) (cq : CompletionQueue)
    → k ≤ 32
    → cq.mask ≡ 2 ^ k - 1
    → cq.head < 2 ^ 32
    → cq.head % 2 ^ k + m < 2 ^ k
    → ((j : ℕ) → mem j ids ≡ (leb (cq.head % 2 ^ k) j && ltb j (cq.head % 2 ^ k + m)))
    → (c : Completer) × (run (new_completer cq) ids ≡ some c)
      × (c.cq.head ≡ (cq.head + m) % 2 ^ 32)
      × ((j : ℕ) → cq.head % 2 ^ k + m ≤ j → mem j c.unacked ≡ false)
unfolding nobody
run-any_order k m ids cq small mask u32 room all =
    let s : ℕ = cq.head % 2 ^ k in
    let region : (j : ℕ) → with_all ids nobody j ≡ (leb s j && ltb j (s + m)) =
      λ j. with_all-mem ids nobody j ∙ bool_eta (mem j ids) ∙ all j in
    let (c, e, t) =
      run-Tracks k s cq.head (s + m) ids nobody (new_completer cq) small room
        (λ j h. ground (arith, region j)) (new_completer-Tracks k cq mask u32) in
    let behind : c.cq.head % 2 ^ k ≡ s + m =
      reached s m (c.cq.head % 2 ^ k) (with_all ids nobody) region t.from t.next t.passed in
    (c, e, ground (arith, t.total, behind), λ j h. ground (arith, region j, t.rest j, behind))
