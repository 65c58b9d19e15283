-- ===== src/Lookup/Entry/Canonical.antt =====
-- The sorted chain does not depend on the order in which the entries came: the order of
-- `KeyValue::cmp` is total, and entries that it takes for equal are equal.
use Prim.Native.Nat.{Ordering}
use mathlib.Core.Logic.{∥∥₁_elim}
use mathlib.Core.List.{Perm, Permᴰ}
use native.Mathlib.Decide.{ℕ_discrete}
use wasm_shared_buffers.Base.{◌≡◌, ◌≢◌, refl, sym, ap, ◌∙◌, List, [], ◌∷◌, ◌⊎◌, inl, inr, arith}
use wasm_shared_buffers.Lookup.Entry.{KeyValue, Bytes, cmp_bytes, cmp, insert_sorted, sort}

pub entries-set : IsSet (List KeyValue)
entries-set = hlevel (ℕ_discrete)

-- The order on strings.
cmp_bytes-eq : (a b : Bytes) → cmp_bytes a b ≡ Ordering.eq → a ≡ b
unfolding cmp_bytes
cmp_bytes-eq [] [] h = refl
cmp_bytes-eq [] (b ∷ bs) h = absurd (cc h)
cmp_bytes-eq (a ∷ xs) [] h = absurd (cc h)
cmp_bytes-eq (a ∷ xs) (b ∷ bs) h = ground (arith, cmp_bytes-eq xs bs)

cmp_bytes_refl : (a : Bytes) → cmp_bytes a a ≡ Ordering.eq
unfolding cmp_bytes
cmp_bytes_refl [] = refl
cmp_bytes_refl (a ∷ xs) = ground (arith, cmp_bytes_refl xs)

cmp_bytes_gt-lt :
    (a b c : Bytes)
    → cmp_bytes a b ≡ Ordering.gt
    → cmp_bytes c b ≡ Ordering.lt
    → cmp_bytes a c ≡ Ordering.gt
unfolding cmp_bytes
cmp_bytes_gt-lt [] [] c h k = absurd (cc h)
cmp_bytes_gt-lt [] (b ∷ bs) c h k = absurd (cc h)
cmp_bytes_gt-lt (a ∷ xs) [] [] h k = refl
cmp_bytes_gt-lt (a ∷ xs) [] (c ∷ cs) h k = absurd (cc k)
cmp_bytes_gt-lt (a ∷ xs) (b ∷ bs) [] h k = refl
cmp_bytes_gt-lt (a ∷ xs) (b ∷ bs) (c ∷ cs) h k = ground (arith, cmp_bytes_gt-lt xs bs cs)

cmp_bytes_lt-gt : (a b : Bytes) → cmp_bytes a b ≡ Ordering.lt → cmp_bytes b a ≡ Ordering.gt
unfolding cmp_bytes
cmp_bytes_lt-gt [] [] h = absurd (cc h)
cmp_bytes_lt-gt [] (b ∷ bs) h = refl
cmp_bytes_lt-gt (a ∷ xs) [] h = absurd (cc h)
cmp_bytes_lt-gt (a ∷ xs) (b ∷ bs) h = ground (arith, cmp_bytes_lt-gt xs bs)

cmp_bytes_gt-flip : (a b : Bytes) → cmp_bytes a b ≡ Ordering.gt → cmp_bytes b a ≡ Ordering.lt
unfolding cmp_bytes
cmp_bytes_gt-flip [] [] h = absurd (cc h)
cmp_bytes_gt-flip [] (b ∷ bs) h = absurd (cc h)
cmp_bytes_gt-flip (a ∷ xs) [] h = refl
cmp_bytes_gt-flip (a ∷ xs) (b ∷ bs) h = ground (arith, cmp_bytes_gt-flip xs bs)

-- The order on entries.
cmp-eq : (e f : KeyValue) → cmp e f ≡ Ordering.eq → e ≡ f
unfolding cmp
cmp-eq e f h = ground (arith, cmp_bytes-eq e.key f.key, cmp_bytes-eq e.val f.val)

cmp_gt-flip : (e f : KeyValue) → cmp e f ≡ Ordering.gt → cmp f e ≡ Ordering.lt
unfolding cmp
cmp_gt-flip e f h = ground (
  arith,
  cmp_bytes-eq e.key f.key,
  cmp_bytes_refl e.key,
  cmp_bytes_gt-flip e.key f.key,
  cmp_bytes_gt-flip e.val f.val,
)

cmp_lt-flip : (e f : KeyValue) → cmp e f ≡ Ordering.lt → cmp f e ≡ Ordering.gt
unfolding cmp
cmp_lt-flip e f h = ground (
  arith,
  cmp_bytes-eq e.key f.key,
  cmp_bytes_refl e.key,
  cmp_bytes_lt-gt e.key f.key,
  cmp_bytes_lt-gt e.val f.val,
)

cmp_gt-lt :
    (e x f : KeyValue) → cmp e x ≡ Ordering.gt → cmp f x ≡ Ordering.lt → cmp e f ≡ Ordering.gt
unfolding cmp
cmp_gt-lt e x f h k = ground (
  arith,
  cmp_bytes-eq e.key x.key,
  cmp_bytes-eq f.key x.key,
  cmp_bytes_refl x.key,
  cmp_bytes_gt-lt e.key x.key f.key,
  cmp_bytes_gt-lt e.val x.val f.val,
  cmp_bytes_lt-gt f.key x.key,
)

-- What `insert_sorted` does at the head of a chain.
insert_behind :
    (e x : KeyValue) (c : List KeyValue)
    → cmp e x ≡ Ordering.gt
    → insert_sorted e (x ∷ c) ≡ x ∷ insert_sorted e c
unfolding insert_sorted
insert_behind e x c h = ground arith

insert_front :
    (e x : KeyValue) (c : List KeyValue)
    → cmp e x ≢ Ordering.gt
    → insert_sorted e (x ∷ c) ≡ e ∷ x ∷ c
unfolding insert_sorted
insert_front e x c h = ground arith

data Compares (e x : KeyValue) : Type 0 where
  greater : cmp e x ≡ Ordering.gt → Compares e x
  smaller : cmp e x ≡ Ordering.lt → Compares e x
  same : e ≡ x → Compares e x

compares : (e x : KeyValue) → Compares e x
compares e x =
    elim (cmp e x) as (λ o. cmp e x ≡ o → Compares e x) [
      | Ordering.gt ↦ greater
      | Ordering.lt ↦ smaller
      | Ordering.eq ↦ λ h. same (cmp-eq e x h)
    ]
      refl

not_greater : (e x : KeyValue) → cmp e x ≡ Ordering.lt → cmp e x ≢ Ordering.gt
not_greater e x h k = cc (h, k)

-- Both entries go before the chain `c`, whose first entry is not smaller.
front_comm :
    (e f x : KeyValue) (c : List KeyValue)
    → cmp e x ≢ Ordering.gt
    → cmp f x ≢ Ordering.gt
    → insert_sorted e (f ∷ x ∷ c) ≡ insert_sorted f (e ∷ x ∷ c)
front_comm e f x c h k = elim (compares e f) [
  | greater g ↦
      insert_behind e f (x ∷ c) g
      ∙ ap (λ d. f ∷ d) (insert_front e x c h)
      ∙ sym (insert_front f e (x ∷ c) (not_greater f e (cmp_gt-flip e f g)))
  | smaller l ↦
      insert_front e f (x ∷ c) (not_greater e f l)
      ∙ ap (λ d. e ∷ d) (sym (insert_front f x c k))
      ∙ sym (insert_behind f e (x ∷ c) (cmp_lt-flip e f l))
  | same q ↦ rw q
]

-- The one goes before the entry `x`, and the other behind it.
split_comm :
    (e f x : KeyValue) (c : List KeyValue)
    → cmp e x ≡ Ordering.gt
    → cmp f x ≢ Ordering.gt
    → insert_sorted e (insert_sorted f (x ∷ c)) ≡ insert_sorted f (insert_sorted e (x ∷ c))
split_comm e f x c g k =
    let above : cmp e f ≡ Ordering.gt = elim (compares f x) [
      | greater h ↦ absurd (k h)
      | smaller l ↦ cmp_gt-lt e x f g l
      | same q ↦ rw q g
    ] in
    ap (insert_sorted e) (insert_front f x c k)
    ∙ insert_behind e f (x ∷ c) above
    ∙ ap (λ d. f ∷ d) (insert_behind e x c g)
    ∙ sym (insert_front f x (insert_sorted e c) k)
    ∙ ap (insert_sorted f) (sym (insert_behind e x c g))

gt-cases : (e x : KeyValue) → (cmp e x ≡ Ordering.gt) ⊎ (cmp e x ≢ Ordering.gt)
gt-cases e x = elim (compares e x) [
  | greater g ↦ inl g
  | smaller l ↦ inr (not_greater e x l)
  | same q ↦
      elim (cmp e x) as (λ o. cmp e x ≡ o → (cmp e x ≡ Ordering.gt) ⊎ (cmp e x ≢ Ordering.gt)) [
        | Ordering.gt ↦ inl
        | Ordering.lt ↦ λ h. inr (not_greater e x h)
        | Ordering.eq ↦ λ h. inr (λ k. cc (h, k))
      ]
        refl
]

single_comm :
    (e f : KeyValue) → insert_sorted e (insert_sorted f []) ≡ insert_sorted f (insert_sorted e [])
unfolding insert_sorted
single_comm e f = elim (compares e f) [
  | greater g ↦ ground (arith, cmp_gt-flip e f)
  | smaller l ↦ ground (arith, cmp_lt-flip e f)
  | same q ↦ rw q refl
]

pub insert_comm :
    (e f : KeyValue) (c : List KeyValue)
    → insert_sorted e (insert_sorted f c) ≡ insert_sorted f (insert_sorted e c)
insert_comm e f [] = single_comm e f
insert_comm e f (x ∷ c) = elim (gt-cases e x) [
  | inl g ↦ elim (gt-cases f x) [
    | inl h ↦
        ap (insert_sorted e) (insert_behind f x c h)
        ∙ insert_behind e x (insert_sorted f c) g
        ∙ ap (λ d. x ∷ d) (insert_comm e f c)
        ∙ sym (insert_behind f x (insert_sorted e c) h)
        ∙ ap (insert_sorted f) (sym (insert_behind e x c g))
    | inr k ↦ split_comm e f x c g k
  ]
  | inr k ↦ elim (gt-cases f x) [
    | inl h ↦ sym (split_comm f e x c h k)
    | inr l ↦
        ap (insert_sorted e) (insert_front f x c l)
        ∙ front_comm e f x c k l
        ∙ ap (insert_sorted f) (sym (insert_front e x c k))
  ]
]

sort-Permᴰ : {c d : List KeyValue} → Permᴰ c d → sort c ≡ sort d
unfolding sort
sort-Permᴰ Permᴰ.nil = refl
sort-Permᴰ (Permᴰ.cons {a = e} {b = f} q p) = rw q (ap (insert_sorted f) (sort-Permᴰ p))
sort-Permᴰ (Permᴰ.swap {a = a} {b = b} {l = l} q r) = rw (← q, ← r) (insert_comm a b (sort l))
sort-Permᴰ (Permᴰ.trans p q) = sort-Permᴰ p ∙ sort-Permᴰ q

-- Chains with the same entries are sorted to the same chain.
pub sort-perm : {c d : List KeyValue} → Perm c d → sort c ≡ sort d
sort-perm p = ∥∥₁_elim p (entries-set _ _) sort-Permᴰ
