-- ===== src/Lookup/Host/Create.antt =====
-- What `create_lookup` builds from the generated pairs.
use wasm_shared_buffers.Base.{
  ℕ, zero, suc, ◌+◌, ◌-◌, ◌%◌, ◌≡◌, ◌≤◌, ◌<◌, refl, sym, ap, ◌∙◌, Bool-cases, inl, inr, Option,
  none, some, List, [], ◌∷◌, ◌++◌, length, All, append_assoc, append-nil, lt→ltb, if◌then◌else◌,
  arith,
}
use wasm_shared_buffers.Word.{u32_mod}
use wasm_shared_buffers.Lookup.Entry.{Bytes, KeyValue, eq_bytes, eq_bytes_iff, find, Distinct}
use wasm_shared_buffers.Lookup.Host.{insert, Created, add_pair, add_pairs, create_lookup}
use wasm_shared_buffers.Lookup.Module.{rounds}
use wasm_shared_buffers.Lookup.Module.TestKeys.{packed_strs}
use wasm_shared_buffers.Lookup.Store.Format.{packed_str}

find-nil : (k : Bytes) → find k [] ≡ none
unfolding find
find-nil k = refl

pub find-insert :
    (k : Bytes) (e : KeyValue) (m : List KeyValue)
    → find k (insert e m) ≡ (if eq_bytes e.key k then some e.val else find k m)
unfolding find insert
find-insert k e [] = refl
find-insert k e (x ∷ m) =
    ground (
      arith,
      find-insert k e m,
      eq_bytes_iff x.key e.key,
      eq_bytes_iff e.key k,
      eq_bytes_iff x.key k,
    )

pub insert-Distinct : (e : KeyValue) (m : List KeyValue) → Distinct m → Distinct (insert e m)
unfolding insert
insert-Distinct e [] d = (unfold find in refl, tt)
insert-Distinct e (x ∷ m) (new, d) = ground (
  arith,
  insert-Distinct e m d,
  find-insert x.key e m,
  eq_bytes_iff x.key e.key,
  eq_bytes_iff e.key x.key,
)

-- The value that the last pair with the key brings, else what was there.
abbrev pub last_value : Bytes → List KeyValue → Option Bytes → Option Bytes
last_value k [] old = old
last_value k (e ∷ es) old = last_value k es (if eq_bytes e.key k then some e.val else old)

add_pair-lookup : (w : ℕ) (e : KeyValue) (s : Created) → (add_pair w e s).lookup ≡ insert e s.lookup
unfolding add_pair
add_pair-lookup w e s = ground arith

find-add_pairs :
    (w : ℕ) (k : Bytes) (es : List KeyValue) (s : Created)
    → find k (add_pairs w es s).lookup ≡ last_value k es (find k s.lookup)
unfolding add_pairs
find-add_pairs w k [] s = refl
find-add_pairs w k (e ∷ es) s =
    find-add_pairs w k es (add_pair w e s)
    ∙ ap (last_value k es) (rw (add_pair-lookup w e s) (find-insert k e s.lookup))

add_pairs-Distinct :
    (w : ℕ) (es : List KeyValue) (s : Created)
    → Distinct s.lookup
    → Distinct (add_pairs w es s).lookup
unfolding add_pairs
add_pairs-Distinct w [] s d = d
add_pairs-Distinct w (e ∷ es) s d =
    add_pairs-Distinct w es (add_pair w e s)
      (rw (add_pair-lookup w e s) (insert-Distinct e s.lookup d))

module _ (w : ℕ) (e : KeyValue) (s : Created) where
  add_pair-room :
      s.test_key_count < w
      → length e.key < u32_mod
      → ((add_pair w e s).test_keys ≡ s.test_keys ++ packed_str e.key)
        × ((add_pair w e s).test_key_count ≡ s.test_key_count + 1)
  unfolding add_pair packed_str
  add_pair-room h short =
      let cast : length e.key % u32_mod ≡ length e.key = omega arith in
      rw (lt→ltb _ _ h, cast) (refl, refl)

  add_pair-full :
      w ≤ s.test_key_count
      → ((add_pair w e s).test_keys ≡ s.test_keys)
        × ((add_pair w e s).test_key_count ≡ s.test_key_count)
  unfolding add_pair
  add_pair-full h = (ground arith, ground arith)

-- The packed test keys are those of the first pairs, `n` of them as long as there are pairs.
abbrev pub first_keys : ℕ → List KeyValue → List Bytes
first_keys n [] = []
first_keys zero (e ∷ es) = []
first_keys (suc n) (e ∷ es) = e.key ∷ first_keys n es

first_keys-zero : (es : List KeyValue) → first_keys zero es ≡ []
first_keys-zero [] = refl
first_keys-zero (e ∷ es) = refl

add_pairs-test_keys :
    (w : ℕ) (es : List KeyValue) (s : Created) (n : ℕ)
    → All (λ e. length e.key < u32_mod) es
    → w - s.test_key_count ≡ n
    → (add_pairs w es s).test_keys ≡ s.test_keys ++ packed_strs (first_keys n es)
unfolding add_pairs packed_strs
add_pairs-test_keys w [] s n all left = sym (append-nil s.test_keys)
add_pairs-test_keys w (e ∷ es) s zero (short, all) left =
    let (same, count) = add_pair-full w e s (omega arith) in
    let rest = add_pairs-test_keys w es (add_pair w e s) zero all (omega arith) in
    let none_left = first_keys-zero es in rest ∙ rw (same, none_left)
add_pairs-test_keys w (e ∷ es) s (suc n) (short, all) left =
    let (longer, count) = add_pair-room w e s (omega arith) short in
    let rest = add_pairs-test_keys w es (add_pair w e s) n all (omega arith) in
    rest ∙ rw longer (append_assoc s.test_keys (packed_str e.key) (packed_strs (first_keys n es)))

-- `create_lookup` makes a map with distinct keys in which each key has the value that the last of
-- its pairs brought, and packs the keys of the first pairs, as many as are asked for.
pub create_lookup_lem :
    (test_keys : ℕ) (pairs : List KeyValue)
    → All (λ e. length e.key < u32_mod) pairs
    → Distinct (create_lookup test_keys pairs).lookup
      × ((k : Bytes) → find k (create_lookup test_keys pairs).lookup ≡ last_value k pairs none)
      × ((create_lookup test_keys pairs).test_keys
          ≡ packed_strs (first_keys (rounds test_keys) pairs))
unfolding create_lookup
create_lookup_lem test_keys pairs short =
    let start : Created = record { lookup = []; test_keys = []; test_key_count = 0 } in
    let w = rounds test_keys in
    (
      add_pairs-Distinct w pairs start tt,
      λ k. find-add_pairs w k pairs start ∙ ap (last_value k pairs) (find-nil k),
      add_pairs-test_keys w pairs start w short (omega arith),
    )

last_value-some :
    (k : Bytes) (es : List KeyValue) (v : Bytes) → (u : Bytes) × (last_value k es (some v) ≡ some u)
last_value-some k [] v = (v, refl)
last_value-some k (e ∷ es) v = elim (Bool-cases (eq_bytes e.key k)) [
  | inl same ↦ rw same (last_value-some k es e.val)
  | inr apart ↦ rw apart (last_value-some k es v)
]

-- Each of the first keys has a value in the end.
first_keys-last_value :
    (n : ℕ) (es : List KeyValue) (old : Bytes → Option Bytes)
    → All (λ k. (v : Bytes) × (last_value k es (old k) ≡ some v)) (first_keys n es)
first_keys-last_value n [] old = tt
first_keys-last_value zero (e ∷ es) old = tt
first_keys-last_value (suc n) (e ∷ es) old = (
  rw ((eq_bytes_iff e.key e.key).1 refl) (last_value-some e.key es e.val),
  first_keys-last_value n es (λ k. if eq_bytes e.key k then some e.val else old k),
)

All-impl {ℓ κ} :
    {A : Type 0} (P : A → Type ℓ) (Q : A → Type κ) (xs : List A)
    → ((x : A) → P x → Q x)
    → All P xs
    → All Q xs
All-impl P Q [] f all = tt
All-impl P Q (x ∷ xs) f (p, all) = (f x p, All-impl P Q xs f all)

-- Every packed test key is a key of the map, also where a later pair replaced its value.
pub test_keys-found :
    (test_keys : ℕ) (pairs : List KeyValue)
    → All
        (λ k. (v : Bytes) × (find k (create_lookup test_keys pairs).lookup ≡ some v))
        (first_keys (rounds test_keys) pairs)
unfolding create_lookup
test_keys-found test_keys pairs =
    let start : Created = record { lookup = []; test_keys = []; test_key_count = 0 } in
    let n = rounds test_keys in
    All-impl (λ k. (v : Bytes) × (last_value k pairs none ≡ some v)) _ (first_keys n pairs)
      (λ k found.
        let (v, e) = found in
        (v, find-add_pairs n k pairs start ∙ ap (last_value k pairs) (find-nil k) ∙ e))
      (first_keys-last_value n pairs (λ _. none))
