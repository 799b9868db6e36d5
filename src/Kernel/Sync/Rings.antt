-- ===== src/Kernel/Sync/Rings.antt =====
-- The ring of `queue_t` of rtos/src/sync.c as a list of the items in it.
use native.Mathlib.Nat.{mod-eq_of_lt, mod_self}
use rtos_kernel_from_scratch.Common.{
  ℕ, zero, suc, ◌+◌, ◌%◌, ◌≤◌, ◌<◌, ◌≡◌, ◌≢◌, refl, sym, ap, ◌∙◌, subst, some, List, [], ◌∷◌, ◌++◌,
  length, get_or, get_elem?, set, arith, inl, inr, ◌⊎◌, dec_lt, length-set, get_or-set_self,
  get_or-set_ne,
}
use rtos_kernel_from_scratch.Kernel.Sync.{Ring, ring_store, advance_tail, ring_item, advance_head}

-- The place `n` steps behind `h`, as `head` and `tail` go.
abbrev behind : ℕ → ℕ → ℕ → ℕ
behind cap h zero = h
behind cap h (suc n) = behind cap ((h + 1) % cap) n

-- The `n` items from `h` on.
abbrev items_from : List ℕ → ℕ → ℕ → ℕ → List ℕ
items_from buf cap h zero = []
items_from buf cap h (suc n) = get_or buf h 0 ∷ items_from buf cap ((h + 1) % cap) n

-- The ring holds `n` items.
pub record IsRing (r : Ring) (n : ℕ) : Type 0 where
  pub some_room : 0 < r.capacity
  pub whole : length r.buffer ≡ r.capacity
  pub head_in : r.head < r.capacity
  pub tail_at : r.tail ≡ behind r.capacity r.head n

abbrev pub items : Ring → ℕ → List ℕ
items r n = items_from r.buffer r.capacity r.head n

next_in : (cap h : ℕ) → 0 < cap → (h + 1) % cap < cap
next_in cap h p = omega arith

next_wraps : (cap h : ℕ) → h < cap → ((h + 1) % cap ≡ h + 1) ⊎ (((h + 1) % cap ≡ 0) × (h + 1 ≡ cap))
next_wraps cap h lt = elim (dec_lt (h + 1) cap) [
  | yes more ↦ inl (mod-eq_of_lt more)
  | no last ↦
      let e : h + 1 ≡ cap = omega arith in
      inr (subst (λ c. (h + 1) % c ≡ 0) e (mod_self (h + 1)), e)
]

behind_in : (cap h n : ℕ) → h < cap → behind cap h n < cap
behind_in cap h zero lt = lt
behind_in cap h (suc n) lt = behind_in cap ((h + 1) % cap) n (next_in cap h (omega arith))

-- Less than once round, the place is `h + n`, or as much less `cap`.
behind_wraps :
    (cap h n : ℕ) → h < cap → n ≤ cap → (behind cap h n ≡ h + n) ⊎ (behind cap h n + cap ≡ h + n)
behind_wraps cap h zero lt le = inl (omega arith)
behind_wraps cap h (suc n) lt le =
    let next = behind_wraps cap ((h + 1) % cap) n (next_in cap h (omega arith)) (omega arith) in
    let inside = behind_in cap ((h + 1) % cap) n (next_in cap h (omega arith)) in
    elim (next_wraps cap h lt) [
      | inl e ↦ elim next [ inl a ↦ inl (omega arith) | inr b ↦ inr (omega arith) ]
      | inr (z, e) ↦ elim next [ inl a ↦ inr (omega arith) | inr b ↦ absurd (omega arith) ]
    ]

behind_ne : (cap h n : ℕ) → h < cap → 0 < n → n < cap → behind cap h n ≢ h
behind_ne cap h n lt p le e = elim (behind_wraps cap h n lt (omega arith)) [
  | inl a ↦ omega arith
  | inr b ↦ omega arith
]

behind_step : (cap h n : ℕ) → behind cap h (suc n) ≡ (behind cap h n + 1) % cap
behind_step cap h zero = refl
behind_step cap h (suc n) = behind_step cap ((h + 1) % cap) n

-- Behind the items there is room to write.
items_from-set :
    (buf : List ℕ) (cap h n item : ℕ)
    → h < cap
    → n < cap
    → items_from (set buf (behind cap h n) item) cap h n ≡ items_from buf cap h n
items_from-set buf cap h zero item lt le = refl
items_from-set buf cap h (suc n) item lt le =
    let at = behind cap h (suc n) in
    let first = get_or-set_ne buf at h item 0 (behind_ne cap h (suc n) lt (omega arith) le) in
    let rest =
      items_from-set buf cap ((h + 1) % cap) n item (next_in cap h (omega arith)) (omega arith) in
    ap (λ x. x ∷ items_from (set buf at item) cap ((h + 1) % cap) n) first
    ∙ ap (λ l. get_or buf h 0 ∷ l) rest

items_from-last :
    (buf : List ℕ) (cap h n : ℕ)
    → items_from buf cap h (suc n) ≡ items_from buf cap h n ++ (get_or buf (behind cap h n) 0 ∷ [])
items_from-last buf cap h zero = refl
items_from-last buf cap h (suc n) =
    ap (λ l. get_or buf h 0 ∷ l) (items_from-last buf cap ((h + 1) % cap) n)

-- A write at the tail of a ring that is not full changes none of its items.
pub ring_store-items :
    (r : Ring) (n item : ℕ)
    → IsRing r n
    → n < r.capacity
    → let r' = ring_store r item in
      IsRing r' n × (items r' n ≡ items r n) × (get_or r'.buffer r'.tail 0 ≡ item)
unfolding ring_store
ring_store-items r n item w lt =
    let e = w.whole in
    let t = w.tail_at in
    let inside = behind_in r.capacity r.head n w.head_in in
    (
      record {
        some_room = w.some_room;
        whole = length-set r.buffer r.tail item ∙ w.whole;
        head_in = w.head_in;
        tail_at = w.tail_at;
      },
      ap (λ t. items_from (set r.buffer t item) r.capacity r.head n) w.tail_at
          ∙ items_from-set r.buffer r.capacity r.head n item w.head_in lt,
      get_or-set_self r.buffer r.tail item 0 (omega arith),
    )

-- Behind a step of the tail the item that stood there is the last one.
pub advance_tail-items :
    (r : Ring) (n : ℕ)
    → IsRing r n
    → let r' = advance_tail r in
      IsRing r' (suc n) × (items r' (suc n) ≡ items r n ++ (get_or r.buffer r.tail 0 ∷ []))
unfolding advance_tail
advance_tail-items r n w = (
  record {
    some_room = w.some_room;
    whole = w.whole;
    head_in = w.head_in;
    tail_at = ap (λ t. (t + 1) % r.capacity) w.tail_at ∙ sym (behind_step r.capacity r.head n);
  },
  items_from-last r.buffer r.capacity r.head n
      ∙ ap (λ t. items r n ++ (get_or r.buffer t 0 ∷ [])) (sym w.tail_at),
)

get_elem?-get_or : (xs : List ℕ) (i d : ℕ) → i < length xs → get_elem? xs i ≡ some (get_or xs i d)
get_elem?-get_or [] i d h = absurd (omega arith)
get_elem?-get_or (x ∷ xs) zero d h = refl
get_elem?-get_or (x ∷ xs) (suc i) d h = get_elem?-get_or xs i d (omega arith)

-- A step of the head of a ring that is not empty takes off its first item.
pub advance_head-items :
    (r : Ring) (n : ℕ)
    → IsRing r (suc n)
    → let r' = advance_head r in
      (ring_item r ≡ some (get_or r.buffer r.head 0))
      × IsRing r' n
      × (items r (suc n) ≡ get_or r.buffer r.head 0 ∷ items r' n)
unfolding advance_head ring_item
advance_head-items r n w =
    let h = w.head_in in
    let e = w.whole in
    (
      get_elem?-get_or r.buffer r.head 0 (omega arith),
      record {
        some_room = w.some_room;
        whole = w.whole;
        head_in = next_in r.capacity r.head w.some_room;
        tail_at = w.tail_at;
      },
      refl,
    )
