-- ===== src/Lookup/Module/Ready.antt =====
-- What the exported tests of the module start from, and that a lookup keeps it.
use Prim.Native.Nat.{◌∣◌}
use mathlib.Core.Path.{subst}
use wasm_shared_buffers.Base.{
  ℕ, zero, suc, ◌+◌, ◌≡◌, ◌≤◌, ◌<◌, ◌⊎◌, inl, inr, refl, sym, ◌∙◌, true, some, List, [], ◌∷◌, ok,
  length, take, All, arith,
}
use wasm_shared_buffers.Word.{u32_mod}
use wasm_shared_buffers.Memory.{Memory, Holds}
use wasm_shared_buffers.Lookup.Entry.{Bytes, KeyValue, find, Distinct, eq_bytes, eq_bytes_iff}
use wasm_shared_buffers.Lookup.Module.{Context, Str, lookup_int}
use wasm_shared_buffers.Lookup.Module.Call.{IsPlaced, IsOff}
use wasm_shared_buffers.Lookup.Module.Calls.{Allocator, call_ext}
use wasm_shared_buffers.Lookup.Module.External.{KeepsBoth, lookup_ext-KeepsBoth}
use wasm_shared_buffers.Lookup.Module.Internal.{IsMapped, lookup_int-find}
use wasm_shared_buffers.Lookup.Store.Format.{stored_table}
use wasm_shared_buffers.Lookup.Store.Result.{IsTable}
use wasm_shared_buffers.Lookup.Utf8.{is_utf8}

-- The blocks that the allocator gives for up to `limit` bytes lie in a memory of `size` bytes,
-- apart from one another, from the mapped file of `n` bytes and from the strings.
pub record IsApart (alloc : Allocator) (size limit : ℕ) (index n : ℕ) (strs : List Str)
    : Type 0 where
  pub len_fits : (i c : ℕ) → c ≤ limit → (alloc i c).value_len + 4 ≤ size
  pub value_fits : (i c : ℕ) → c ≤ limit → (alloc i c).value + c ≤ size
  pub off_value :
      (i c : ℕ)
      → c ≤ limit
      → ((alloc i c).value_len + 4 ≤ (alloc i c).value)
        ⊎ ((alloc i c).value + c ≤ (alloc i c).value_len)
  pub off_table : (i c : ℕ) → c ≤ limit → IsOff c (alloc i c) index n
  pub off_strs : (i c : ℕ) → c ≤ limit → All (λ s. IsOff c (alloc i c) s.ptr (length s.bytes)) strs

-- What the tests start from, and keep: the memory maps the table and holds the strings.
pub record IsReady (mem : Memory) (size : ℕ) (ctx : Context) (t : List (List KeyValue))
    (strs : List Str) : Type 0 where
  pub size_kept : length mem ≡ size
  pub mapped : IsMapped mem ctx t
  pub strs_held : All (λ s. Holds mem s.ptr s.bytes) strs

-- `s` is one of the strings.
abbrev pub Among : Str → List Str → Type 0
Among s [] = ⊥
Among s (x ∷ xs) = (s ≡ x) ⊎ Among s xs

-- What the tests ask of a key: it is UTF-8, and a key of the map.
pub record IsStored (es : List KeyValue) (strs : List Str) (s : Str) : Type 0 where
  pub among : Among s strs
  pub utf8 : is_utf8 s.bytes ≡ true
  pub value : Bytes
  pub found : find s.bytes es ≡ some value

pub All-Among {κ} : (P : Str → Type κ) (s : Str) (xs : List Str) → All P xs → Among s xs → P s
All-Among P s [] all m = absurd m
All-Among P s (x ∷ xs) (p, all) (inl e) = subst P (sym e) p
All-Among P s (x ∷ xs) (p, all) (inr m) = All-Among P s xs all m

pub All-map {κ} :
    (P Q : Str → Type κ) (xs : List Str)
    → ((s : Str) → Among s xs → P s → Q s)
    → All P xs
    → All Q xs
All-map P Q [] f all = tt
All-map P Q (x ∷ xs) f (p, all) = (f x (inl refl) p, All-map P Q xs (λ s m. f s (inr m)) all)

pub All-take {κ} : (P : Str → Type κ) (n : ℕ) (xs : List Str) → All P xs → All P (take n xs)
All-take P zero xs all = tt
All-take P (suc n) [] all = tt
All-take P (suc n) (x ∷ xs) (p, all) = (p, All-take P n xs all)

pub eq_bytes_refl : (a : Bytes) → eq_bytes a a ≡ true
eq_bytes_refl a = (eq_bytes_iff a a).1 refl

module _ (hash : Bytes → ℕ) (slots : ℕ) (es : List KeyValue) (t : List (List KeyValue))
    (alloc : Allocator) (size limit : ℕ) (ctx : Context) (strs : List Str) (pos : 0 < slots)
    (divides : slots ∣ u32_mod) (distinct : Distinct es) (table : IsTable hash slots es t)
    (apart : IsApart alloc size limit ctx.index (length (stored_table t)) strs)
    (small : limit < u32_mod) (default : ctx.default_msg_bytes ≤ limit)
    (values : (k v : Bytes) → find k es ≡ some v → length v ≤ limit) where
  pub IsOff-str :
      (s : Str) → Among s strs → (i c : ℕ) → c ≤ limit → IsOff c (alloc i c) s.ptr (length s.bytes)
  IsOff-str s among i c h =
      All-Among (λ x. IsOff c (alloc i c) x.ptr (length x.bytes)) s strs (apart.off_strs i c h)
        among

  pub placed :
      (mem : Memory) (s : Str)
      → length mem ≡ size
      → Among s strs
      → (i c : ℕ) → c ≤ limit
      → IsPlaced (length mem) s.ptr (length s.bytes) c (alloc i c)
  placed mem s e among i c h = record {
    len_fits = omega (arith, apart.len_fits i c h);
    value_fits = omega (arith, apart.value_fits i c h);
    off_key = (IsOff-str s among i c h).off_word;
    off_value = apart.off_value i c h;
  }

  pub keeps-Holds :
      (mem m : Memory) (key : Bytes) (q : ℕ) (cs : Bytes)
      → KeepsBoth mem m alloc ctx.default_msg_bytes (find key es)
      → ((i c : ℕ) → c ≤ limit → IsOff c (alloc i c) q (length cs))
      → Holds mem q cs
      → Holds m q cs
  keeps-Holds mem m key q cs keeps off h =
      keeps.holds q cs (off 1 ctx.default_msg_bytes default)
        (λ v e _. off 0 (length v) (values key v e)) h

  pub keeps-IsReady :
      (mem m : Memory) (key : Bytes)
      → KeepsBoth mem m alloc ctx.default_msg_bytes (find key es)
      → IsReady mem size ctx t strs
      → IsReady m size ctx t strs
  keeps-IsReady mem m key keeps ready = record {
    size_kept = keeps.size ∙ ready.size_kept;
    mapped = record {
      held =
          keeps-Holds mem m key ctx.index (stored_table t) keeps apart.off_table ready.mapped.held;
      index_len = ready.mapped.index_len;
      lookup = ready.mapped.lookup;
      lookup_bytes = ready.mapped.lookup_bytes;
      below = ready.mapped.below;
    };
    strs_held =
        All-map (λ s. Holds mem s.ptr s.bytes) (λ s. Holds m s.ptr s.bytes) strs
          (λ s among. keeps-Holds mem m key s.ptr s.bytes keeps (IsOff-str s among))
          ready.strs_held;
  }

  -- A call leaves the tests' preconditions as they are.
  pub call_ext-IsReady :
      (mem : Memory) (s : Str)
      → IsReady mem size ctx t strs
      → Among s strs
      → is_utf8 s.bytes ≡ true
      → (m : Memory) × (call_ext es alloc ctx s mem ≡ ok (find s.bytes es, m))
        × IsReady m size ctx t strs
  call_ext-IsReady mem s ready among utf8 =
      let held = All-Among (λ x. Holds mem x.ptr x.bytes) s strs ready.strs_held among in
      let (m, run, keeps) =
        lookup_ext-KeepsBoth es alloc s.bytes s.ptr ctx mem utf8 held (omega arith)
          (placed mem s ready.size_kept among 1 ctx.default_msg_bytes default)
          (λ v e. (
            omega (arith, values s.bytes v e),
            λ _. placed mem s ready.size_kept among 0 (length v) (values s.bytes v e),
          )) in
      (m, run, keeps-IsReady mem m s.bytes keeps ready)

  pub call_int :
      (mem : Memory) (key : Bytes)
      → IsReady mem size ctx t strs
      → lookup_int mem hash ctx key ≡ ok (find key es)
  call_int mem key ready =
      lookup_int-find hash slots es t mem ctx key pos divides distinct table ready.mapped
