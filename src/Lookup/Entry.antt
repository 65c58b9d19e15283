-- ===== src/Lookup/Entry.antt =====
-- Key/value pairs: `KeyValue` of rust/lookup/src/main.rs with its order, the `sort` of a chain, and
-- what `HashMap::get` answers on a map whose entries are listed. A string is its UTF-8 bytes.
pub mod Order
pub mod Canonical
use Prim.Native.Nat.{compare, Ordering}
use wasm_shared_buffers.Base.{
  ℕ, ◌≡◌, refl, Bool, true, false, ◌&&◌, Option, none, some, List, [], ◌∷◌, ◌↔◌, ◌∙◌, ◌==◌,
  if◌then◌else◌, arith,
}

abbrev pub Bytes : Type 0
Bytes = List ℕ

pub record KeyValue : Type 0 where
  pub key : Bytes
  pub val : Bytes

-- `==` on strings.
unfoldable pub eq_bytes : Bytes → Bytes → Bool
eq_bytes [] [] = true
eq_bytes (a ∷ xs) (b ∷ ys) = a == b && eq_bytes xs ys
eq_bytes _ _ = false

-- `cmp` on strings: lexicographic by bytes, a prefix first.
unfoldable pub cmp_bytes : Bytes → Bytes → Ordering
cmp_bytes [] [] = Ordering.eq
cmp_bytes [] (b ∷ ys) = Ordering.lt
cmp_bytes (a ∷ xs) [] = Ordering.gt
cmp_bytes (a ∷ xs) (b ∷ ys) = elim (compare a b) [
  | Ordering.lt ↦ Ordering.lt
  | Ordering.eq ↦ cmp_bytes xs ys
  | Ordering.gt ↦ Ordering.gt
]

-- `KeyValue::cmp`
unfoldable pub cmp : KeyValue → KeyValue → Ordering
unfolding cmp_bytes
cmp e other = elim (cmp_bytes e.key other.key) [
  | Ordering.lt ↦ Ordering.lt
  | Ordering.gt ↦ Ordering.gt
  | Ordering.eq ↦ cmp_bytes e.val other.val
]

-- `table[i].sort()`, a stable sort by `cmp`.
unfoldable pub insert_sorted : KeyValue → List KeyValue → List KeyValue
unfolding cmp
insert_sorted e [] = e ∷ []
insert_sorted e (x ∷ xs) =
    let rest = x ∷ insert_sorted e xs in elim (cmp e x) [ Ordering.gt ↦ rest | _ ↦ e ∷ x ∷ xs ]

unfoldable pub sort : List KeyValue → List KeyValue
unfolding insert_sorted
sort [] = []
sort (e ∷ es) = insert_sorted e (sort es)

-- `HashMap::get`, over the entries of the map.
unfoldable pub find : Bytes → List KeyValue → Option Bytes
unfolding eq_bytes
find k [] = none
find k (e ∷ es) = if eq_bytes e.key k then some e.val else find k es

-- The keys of a `HashMap` are distinct.
abbrev pub Distinct : List KeyValue → Type 0
Distinct [] = Unit
Distinct (e ∷ es) = (find e.key es ≡ none) × Distinct es

pub eq_bytes_iff : (a b : Bytes) → (eq_bytes a b ≡ true) ↔ (a ≡ b)
unfolding eq_bytes
eq_bytes_iff [] [] = (λ _. refl, λ _. refl)
eq_bytes_iff [] (b ∷ ys) = (λ h. cc, λ h. cc)
eq_bytes_iff (a ∷ xs) [] = (λ h. cc, λ h. cc)
eq_bytes_iff (a ∷ xs) (b ∷ ys) = ground (arith, eq_bytes_iff xs ys)

-- Inserting at its place in the order, and in front, read alike if the key is new.
pub find-insert_sorted :
    (k : Bytes) (e : KeyValue) (c : List KeyValue)
    → find e.key c ≡ none
    → find k (insert_sorted e c) ≡ find k (e ∷ c)
unfolding find insert_sorted
find-insert_sorted k e [] h = refl
find-insert_sorted k e (x ∷ c) h = ground (
  arith,
  find-insert_sorted k e c,
  eq_bytes_iff x.key k,
  eq_bytes_iff e.key k,
  eq_bytes_iff x.key e.key,
)

find-cons :
    (k : Bytes) (e : KeyValue) (c d : List KeyValue)
    → find k c ≡ find k d
    → find k (e ∷ c) ≡ find k (e ∷ d)
unfolding find
find-cons k e c d h = rw h

-- Sorting a chain of distinct keys does not change what is found in it.
pub find-sort : (k : Bytes) (c : List KeyValue) → Distinct c → find k (sort c) ≡ find k c
unfolding sort
find-sort k [] d = refl
find-sort k (e ∷ c) (new, d) =
    find-insert_sorted k e (sort c) (rw (find-sort e.key c d) new)
    ∙ find-cons k e (sort c) c (find-sort k c d)
