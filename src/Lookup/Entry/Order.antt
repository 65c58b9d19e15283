-- ===== src/Lookup/Entry/Order.antt =====
-- The order of `KeyValue::cmp`, and what `sort` makes of a chain.
use Prim.Native.Nat.{Ordering}
use mathlib.Core.List.{Perm}
use mathlib.Core.List.Perm
use wasm_shared_buffers.Base.{◌≡◌, ◌≢◌, refl, List, [], ◌∷◌, ◌⊎◌, inl, inr, arith, ◌+◌, length}
use wasm_shared_buffers.Lookup.Entry.{KeyValue, Bytes, cmp_bytes, cmp, insert_sorted, sort}

-- No entry is greater than the one behind it.
abbrev pub IsSorted : List KeyValue → Type 0
IsSorted [] = Unit
IsSorted (x ∷ []) = Unit
IsSorted (x ∷ y ∷ ys) = (cmp x y ≢ Ordering.gt) × IsSorted (y ∷ ys)

cmp_bytes_flip : (a b : Bytes) → cmp_bytes a b ≡ Ordering.gt → cmp_bytes b a ≡ Ordering.lt
unfolding cmp_bytes
cmp_bytes_flip [] [] h = absurd (cc h)
cmp_bytes_flip [] (b ∷ bs) h = absurd (cc h)
cmp_bytes_flip (a ∷ xs) [] h = refl
cmp_bytes_flip (a ∷ xs) (b ∷ bs) h = ground (arith, cmp_bytes_flip xs bs)

cmp_bytes_eq : (a b : Bytes) → cmp_bytes a b ≡ Ordering.eq → cmp_bytes b a ≡ Ordering.eq
unfolding cmp_bytes
cmp_bytes_eq [] [] h = refl
cmp_bytes_eq [] (b ∷ bs) h = absurd (cc h)
cmp_bytes_eq (a ∷ xs) [] h = absurd (cc h)
cmp_bytes_eq (a ∷ xs) (b ∷ bs) h = ground (arith, cmp_bytes_eq xs bs)

cmp_flip : (e x : KeyValue) → cmp e x ≡ Ordering.gt → cmp x e ≢ Ordering.gt
unfolding cmp
cmp_flip e x h =
    ground (arith, cmp_bytes_flip e.key x.key, cmp_bytes_eq e.key x.key, cmp_bytes_flip e.val x.val)

insert_sorted-IsSorted :
    (e : KeyValue) (c : List KeyValue) → IsSorted c → IsSorted (insert_sorted e c)
unfolding insert_sorted
insert_sorted-IsSorted e [] s = tt
insert_sorted-IsSorted e (x ∷ []) s = ground (arith, cmp_flip e x)
insert_sorted-IsSorted e (x ∷ y ∷ c) (h, s) =
    ground (arith, cmp_flip e x, insert_sorted-IsSorted e (y ∷ c) s)

Ordering-cases : (o : Ordering) → (o ≡ Ordering.gt) ⊎ (o ≢ Ordering.gt)
Ordering-cases Ordering.gt = inl refl
Ordering-cases Ordering.lt = inr (λ e. cc)
Ordering-cases Ordering.eq = inr (λ e. cc)

insert_sorted-perm : (e : KeyValue) (c : List KeyValue) → Perm (insert_sorted e c) (e ∷ c)
unfolding insert_sorted
insert_sorted-perm e [] = Perm.refl _
insert_sorted-perm e (x ∷ c) = elim (Ordering-cases (cmp e x)) [
  | inl gt ↦
      rw (gt, insert_sorted) (Perm.trans (Perm.cons x (insert_sorted-perm e c)) (Perm.swap e x c))
  | inr kept ↦ rw (insert_sorted_front e x c kept) (Perm.refl _)
]
  where
    insert_sorted_front :
        (e x : KeyValue) (c : List KeyValue)
        → cmp e x ≢ Ordering.gt
        → insert_sorted e (x ∷ c) ≡ e ∷ x ∷ c
    insert_sorted_front e x c kept = ground arith

-- `sort` returns its input's entries, as often as they stood there, in the order of `cmp`.
pub sort_lem : (c : List KeyValue) → IsSorted (sort c) × Perm (sort c) c
unfolding sort
sort_lem [] = (tt, Perm.refl _)
sort_lem (e ∷ c) =
    let (s, p) = sort_lem c in
    (
      insert_sorted-IsSorted e (sort c) s,
      Perm.trans (insert_sorted-perm e (sort c)) (Perm.cons e p),
    )

length-insert_sorted :
    (e : KeyValue) (c : List KeyValue) → length (insert_sorted e c) ≡ length c + 1
unfolding insert_sorted
length-insert_sorted e [] = omega arith
length-insert_sorted e (x ∷ c) = ground (arith, length-insert_sorted e c)

pub length-sort : (c : List KeyValue) → length (sort c) ≡ length c
unfolding sort
length-sort [] = refl
length-sort (e ∷ c) = omega (arith, length-insert_sorted e (sort c), length-sort c)
