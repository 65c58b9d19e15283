-- ===== src/Lookup/HashMap.antt =====
-- `HashMap` of the host as an abstract map: its pairs with distinct keys, in no order.
use mathlib.Core.Logic.{∥∥₁_elim}
use mathlib.Core.List.{Perm, Permᴰ}
use mathlib.Core.Quot
use mathlib.Core.Quot.{Quot}
use native.Mathlib.Decide.{ℕ_discrete}
use Prim.Native.Nat.{◌∣◌}
use wasm_shared_buffers.Base.{
  ℕ, ◌+◌, ◌*◌, ◌≡◌, ◌<◌, refl, sym, ◌∙◌, List, ◌∷◌, length, arith, ok, Option, none, Run, ◌≤◌, ◌-◌,
  ap, [],
}
use wasm_shared_buffers.Word.{u32_mod}
use wasm_shared_buffers.Memory.{Memory, Holds, Holds-self}
use wasm_shared_buffers.Lookup.Entry.{Bytes, KeyValue, find, Distinct, eq_bytes_iff}
use wasm_shared_buffers.Lookup.Module.{Context, lookup_int}
use wasm_shared_buffers.Lookup.Module.Internal.{lookup_int-store_lookup}
use wasm_shared_buffers.Lookup.Store.Canonical.{stored_file, stored_file-ok, stored_file-perm}
use wasm_shared_buffers.Lookup.Store.Fill.{room_all}
use wasm_shared_buffers.Lookup.Store.Locate.{length-stored_table}
use wasm_shared_buffers.Lookup.Store.Result.{store_lookup-stored_table}

-- The pairs of a map in some order, with room in the table for them.
abbrev pub Pairs : Type 0
Pairs = (es : List KeyValue) × Distinct es × (1 + room_all es < u32_mod)

abbrev pub SamePairs : Pairs → Pairs → Type 0
SamePairs a b = Perm a.0 b.0

abbrev pub HashMap : Type 0
HashMap = Quot SamePairs

find_swap :
    (k : Bytes) (e f : KeyValue) (es : List KeyValue)
    → find e.key (f ∷ es) ≡ none
    → find k (e ∷ f ∷ es) ≡ find k (f ∷ e ∷ es)
unfolding find
find_swap k e f es h =
    ground (arith, eq_bytes_iff e.key k, eq_bytes_iff f.key k, eq_bytes_iff f.key e.key)

find_cons :
    (k : Bytes) (e : KeyValue) (es fs : List KeyValue)
    → find k es ≡ find k fs
    → find k (e ∷ es) ≡ find k (e ∷ fs)
unfolding find
find_cons k e es fs h = rw h refl

apart :
    (e f : KeyValue) (es : List KeyValue)
    → find e.key (f ∷ es) ≡ none
    → find f.key es ≡ none
    → (find f.key (e ∷ es) ≡ none) × (find e.key es ≡ none)
unfolding find
apart e f es h k = (
  ground (arith, eq_bytes_iff e.key f.key, eq_bytes_iff f.key e.key),
  ground (arith, eq_bytes_iff e.key f.key, eq_bytes_iff f.key e.key),
)

-- A permutation of distinct pairs has distinct pairs, and the same answers.
find-Permᴰ :
    {es fs : List KeyValue}
    → Permᴰ es fs
    → Distinct es
    → Distinct fs × ((k : Bytes) → find k es ≡ find k fs)
find-Permᴰ Permᴰ.nil d = (d, λ k. refl)
find-Permᴰ (Permᴰ.cons {a = e} {b = f} {l₁ = es} {l₂ = fs} q p) (n, d) =
    let (d', same) = find-Permᴰ p d in
    rw (← q) ((sym (same e.key) ∙ n, d'), λ k. find_cons k e es fs (same k))
find-Permᴰ (Permᴰ.swap {a = a} {b = b} {l = l} q r) (n, (m, d)) =
    let (first, second) = apart a b l n m in
    rw (← q, ← r) ((first, (second, d)), λ k. find_swap k a b l n)
find-Permᴰ (Permᴰ.trans p q) d =
    let (d', same) = find-Permᴰ p d in
    let (d'', same') = find-Permᴰ q d' in (d'', λ k. same k ∙ same' k)

pub answer-set : IsSet (Option Bytes)
answer-set = hlevel (ℕ_discrete)

pub find-perm :
    (k : Bytes) {es fs : List KeyValue} → Distinct es → Perm es fs → find k es ≡ find k fs
find-perm k d p = ∥∥₁_elim p (answer-set _ _) (λ q. (find-Permᴰ q d).1 k)

-- `HashMap::get`.
unfoldable pub get : Bytes → HashMap → Option Bytes
get k = Quot.lift answer-set (λ a. find k a.0) (λ a b p. find-perm k a.1 p)

pub file-set : IsSet (Run Bytes)
file-set = hlevel (ℕ_discrete)

module _ (hash : Bytes → ℕ) (slots : ℕ) (pos : 0 < slots) where
  -- The bytes of the stored table.
  unfoldable pub file_of : HashMap → Run Bytes
  file_of =
      Quot.lift file-set (λ a. stored_file hash slots a.0)
        (λ a b p. stored_file-perm hash slots a.0 b.0 pos a.2 p)

  module _ (mem : Memory) (ctx : Context) (key : Bytes) (bytes : Bytes) (divides : slots ∣ u32_mod)
      (held : Holds mem ctx.index bytes) (len : ctx.index_len ≡ slots)
      (at : ctx.lookup ≡ ctx.index + slots * 4)
      (size : ctx.lookup_bytes + slots * 4 ≡ length bytes) where
    pairs_get :
        (a : Pairs)
        → length mem < u32_mod
        → stored_file hash slots a.0 ≡ ok bytes
        → lookup_int mem hash ctx key ≡ ok (find key a.0)
    pairs_get (es, d, room) below e =
        let (s, run, file) = stored_file-ok hash slots es pos room in
        let same : s.file.bytes ≡ bytes = cc (e, file) in
        lookup_int-store_lookup hash slots es s mem ctx key pos divides d room below run
          (rw same held) len at (rw same size)

  -- The context of the module over a stored file at address 0.
  abbrev file_context : Bytes → Context
  file_context bytes = record {
    index = 0;
    index_len = slots;
    lookup = slots * 4;
    lookup_bytes = length bytes - slots * 4;
    test_keys = [];
    default_msg_bytes = 0;
  }

  -- The index table is a part of the file.
  index_fits :
      (a : Pairs) (bytes : Bytes) → stored_file hash slots a.0 ≡ ok bytes → slots * 4 ≤ length bytes
  index_fits (es, d, room) bytes e =
      let (s, t, run, stored, table) = store_lookup-stored_table hash slots es pos room in
      let file : stored_file hash slots es ≡ ok s.file.bytes = rw run refl in
      let same : s.file.bytes ≡ bytes = cc (e, file) in
      omega (arith, ap length same, ap length stored, length-stored_table t, table.width)

  pairs_same :
      (a b : Pairs) (bytes key : Bytes)
      → slots ∣ u32_mod
      → length bytes < u32_mod
      → stored_file hash slots a.0 ≡ ok bytes
      → stored_file hash slots b.0 ≡ ok bytes
      → find key a.0 ≡ find key b.0
  pairs_same a b bytes key divides below e f =
      let fits = index_fits a bytes e in
      let size : length bytes - slots * 4 + slots * 4 ≡ length bytes = omega arith in
      let ctx = file_context bytes in
      let held = Holds-self bytes in
      let at : slots * 4 ≡ 0 + slots * 4 = omega arith in
      let x = pairs_get bytes ctx key bytes divides held refl at size a below e in
      let y = pairs_get bytes ctx key bytes divides held refl at size b below f in cc (x, y)

  -- The stored file determines the map, which is taken without the order in which it is iterated: with
  -- at least one slot, a number of slots that divides 2^32, and packed entries that stay below 2^32
  -- bytes, if two maps are stored as the same file of fewer than 2^32 bytes, they answer every key alike.
  pub file_of_inj :
      (m m' : HashMap) (bytes key : Bytes)
      → slots ∣ u32_mod
      → length bytes < u32_mod
      → file_of m ≡ ok bytes
      → file_of m' ≡ ok bytes
      → get key m ≡ get key m'
  unfolding file_of get
  file_of_inj m m' bytes key divides below =
      Quot.ind {β = λ m. file_of m ≡ ok bytes → file_of m' ≡ ok bytes → get key m ≡ get key m'}
        (λ m. hlevel (ℕ_discrete))
        (λ a.
          Quot.ind
            {β = λ m'.
              stored_file hash slots a.0 ≡ ok bytes
              → file_of m' ≡ ok bytes
              → find key a.0 ≡ get key m'}
            (λ m'. hlevel (ℕ_discrete)) (λ b. pairs_same a b bytes key divides below) m')
        m
