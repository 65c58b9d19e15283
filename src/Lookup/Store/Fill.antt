-- ===== src/Lookup/Store/Fill.antt =====
-- The table that `fill` builds: slot `j` holds, in order, the entries whose hash falls on `j`.
use wasm_shared_buffers.Base.{
  ℕ, zero, suc, ◌+◌, ◌%◌, ◌≡◌, ◌≢◌, ◌≤◌, ◌<◌, refl, ap, sym, ◌∙◌, List, [], ◌∷◌, ◌++◌, length,
  length-append, append_assoc, append-nil, get_or, arith, ok, ◌==◌, if◌then◌else◌, none,
}
use wasm_shared_buffers.Word.{to_le_bytes}
use wasm_shared_buffers.Lookup.Entry.{
  Bytes, KeyValue, sort, insert_sorted, find, Distinct, eq_bytes_iff,
}
use wasm_shared_buffers.Lookup.Store.{push_at, fill, rem}
use wasm_shared_buffers.Lookup.Store.Format.{packed_pairs, packed_chain, packed_chains, packed_str}

-- The bytes that an entry takes at most: three lengths, and its own.
abbrev pub room : KeyValue → ℕ
room e = 12 + length e.key + length e.val

abbrev pub room_all : List KeyValue → ℕ
room_all [] = 0
room_all (e ∷ es) = room e + room_all es

pair_room :
    (e : KeyValue) (es : List KeyValue)
    → length (packed_pairs (e ∷ es)) ≡ 8 + length e.key + length e.val + length (packed_pairs es)
unfolding packed_pairs packed_str to_le_bytes
pair_room e es = omega (
  arith,
  length-append (packed_str e.key) (packed_str e.val ++ packed_pairs es),
  length-append (packed_str e.val) (packed_pairs es),
)

insert_room :
    (e : KeyValue) (c : List KeyValue)
    → length (packed_pairs (insert_sorted e c)) ≡ length (packed_pairs (e ∷ c))
unfolding insert_sorted
insert_room e [] = refl
insert_room e (x ∷ c) = ground (
  arith,
  insert_room e c,
  pair_room x (insert_sorted e c),
  pair_room e (x ∷ c),
  pair_room e c,
  pair_room x c,
)

sort_room : (c : List KeyValue) → length (packed_pairs (sort c)) ≡ length (packed_pairs c)
unfolding sort
sort_room [] = refl
sort_room (e ∷ c) =
    omega (arith, insert_room e (sort c), sort_room c, pair_room e (sort c), pair_room e c)

nil_room : length (packed_pairs []) ≡ 0
unfolding packed_pairs
nil_room = refl

last_room :
    (c : List KeyValue) (e : KeyValue)
    → length (packed_pairs (c ++ (e ∷ [])))
      ≡ length (packed_pairs c) + 8 + length e.key + length e.val
last_room [] e = omega (arith, pair_room e [], nil_room)
last_room (x ∷ c) e = omega (arith, last_room c e, pair_room x (c ++ (e ∷ [])), pair_room x c)

chain_room :
    (x : KeyValue) (c : List KeyValue)
    → length (packed_chain (x ∷ c)) ≡ 4 + length (packed_pairs (x ∷ c))
unfolding packed_chain to_le_bytes
chain_room x c = omega (
  arith,
  length-append (to_le_bytes (length (sort (x ∷ c)))) (packed_pairs (sort (x ∷ c))),
  sort_room (x ∷ c),
)

push_room :
    (c : List KeyValue) (e : KeyValue)
    → length (packed_chain (c ++ (e ∷ []))) ≤ length (packed_chain c) + room e
push_room [] e = omega (arith, chain_room e [], pair_room e [], nil_room)
push_room (x ∷ c) e =
    omega (arith, chain_room x (c ++ (e ∷ [])), chain_room x c, last_room (x ∷ c) e)

abbrev pub one_if : ℕ → ℕ → KeyValue → List KeyValue
one_if i j e = if i == j then e ∷ [] else []

record Pushes (t u : List (List KeyValue)) (i : ℕ) (e : KeyValue) : Type 0 where
  pub width : length u ≡ length t
  pub room_bound : length (packed_chains u) ≤ length (packed_chains t) + room e
  pub slots : (j : ℕ) → get_or u j [] ≡ get_or t j [] ++ one_if i j e

push_at-Pushes :
    (t : List (List KeyValue)) (i : ℕ) (e : KeyValue)
    → i < length t
    → (u : List (List KeyValue)) × (push_at t i e ≡ ok u) × Pushes t u i e
unfolding push_at packed_chains
push_at-Pushes [] i e h = absurd (omega arith)
push_at-Pushes (c ∷ t) zero e h = (
  (c ++ (e ∷ [])) ∷ t,
  refl,
  record {
    width = refl;
    room_bound = omega (
      arith,
      push_room c e,
      length-append (packed_chain (c ++ (e ∷ []))) (packed_chains t),
      length-append (packed_chain c) (packed_chains t),
    );
    slots = elim [ zero ↦ refl | suc j ↦ ground (arith, append-nil (get_or t j [])) ];
  },
)
push_at-Pushes (c ∷ t) (suc i) e h =
    let (u, run, p) = push_at-Pushes t i e (omega arith) in
    (
      c ∷ u,
      rw run,
      record {
        width = ap suc p.width;
        room_bound = omega (
          arith,
          p.room_bound,
          length-append (packed_chain c) (packed_chains u),
          length-append (packed_chain c) (packed_chains t),
        );
        slots = elim [ zero ↦ ground (arith, append-nil c) | suc j ↦ ground (arith, p.slots j) ];
      },
    )

-- The entries of slot `j`.
module _ (hash : Bytes → ℕ) (slots : ℕ) where
  unfoldable pub chain_at : ℕ → List KeyValue → List KeyValue
  chain_at j [] = []
  chain_at j (e ∷ es) = one_if (hash e.key % slots) j e ++ chain_at j es

  pub record Fills (es : List KeyValue) (t u : List (List KeyValue)) : Type 0 where
    pub width : length u ≡ length t
    pub room_bound : length (packed_chains u) ≤ length (packed_chains t) + room_all es
    pub chains : (j : ℕ) → get_or u j [] ≡ get_or t j [] ++ chain_at j es

  rem-pos : (a : ℕ) → 0 < slots → rem a slots ≡ ok (a % slots)
  rem-pos a h = ground arith

  pub fill-Fills :
      (es : List KeyValue) (t : List (List KeyValue))
      → 0 < slots
      → length t ≡ slots
      → (u : List (List KeyValue)) × (fill hash slots es t ≡ ok u) × Fills es t u
  unfolding fill chain_at
  fill-Fills [] t pos w = (
    t,
    refl,
    record {
      width = refl;
      room_bound = omega arith;
      chains = λ j. sym (append-nil (get_or t j []));
    },
  )
  fill-Fills (e ∷ es) t pos w =
      let i = hash e.key % slots in
      let (t', run, p) = push_at-Pushes t i e (omega arith) in
      let (u, run', q) = fill-Fills es t' pos (p.width ∙ w) in
      (
        u,
        rw (rem-pos (hash e.key) pos, run) run',
        record {
          width = q.width ∙ p.width;
          room_bound = omega (arith, p.room_bound, q.room_bound);
          chains = λ j.
              q.chains j
              ∙ rw (p.slots j) (append_assoc (get_or t j []) (one_if i j e) (chain_at j es));
        },
      )

  -- What is found in a key's slot is what is found in the whole map.
  pub find-chain_at :
      (k : Bytes) (es : List KeyValue) → find k (chain_at (hash k % slots) es) ≡ find k es
  unfolding find chain_at
  find-chain_at k [] = refl
  find-chain_at k (e ∷ es) = ground (arith, find-chain_at k es, eq_bytes_iff e.key k)

  chain_at-none :
      (k : Bytes) (j : ℕ) (es : List KeyValue) → find k es ≡ none → find k (chain_at j es) ≡ none
  unfolding find chain_at
  chain_at-none k j [] h = refl
  chain_at-none k j (e ∷ es) h = ground (arith, chain_at-none k j es)

  pub chain_at-Distinct : (j : ℕ) (es : List KeyValue) → Distinct es → Distinct (chain_at j es)
  unfolding chain_at
  chain_at-Distinct j [] d = tt
  chain_at-Distinct j (e ∷ es) (new, d) =
      ground (arith, chain_at-Distinct j es d, chain_at-none e.key j es new)

  -- Another slot than the key's holds no entry of the key.
  pub find-chain_at_apart :
      (k : Bytes) (j : ℕ) (es : List KeyValue) → j ≢ hash k % slots → find k (chain_at j es) ≡ none
  unfolding find chain_at
  find-chain_at_apart k j [] ne = refl
  find-chain_at_apart k j (e ∷ es) ne =
      ground (arith, find-chain_at_apart k j es ne, eq_bytes_iff e.key k)
