-- ===== src/Lookup/Main/Generated.antt =====
-- The pairs that `create_lookup` of rust/lookup/src/main.rs draws: `Alphanumeric` characters, and
-- sizes in the ranges KEY_SIZE and VAL_SIZE.
use wasm_shared_buffers.Base.{
  ℕ, zero, suc, ◌≤◌, ◌<◌, ◌≡◌, refl, sym, ◌∙◌, ◌≢◌, ◌⊎◌, inl, inr, true, Option, none, some, List,
  [], ◌∷◌, arith, if◌then◌else◌, Bool-cases, length, All,
}
use mathlib.Core.Path.{subst}
use wasm_shared_buffers.Word.{u32_mod}
use wasm_shared_buffers.Lookup.Entry.{Bytes, KeyValue, eq_bytes, eq_bytes_iff, find}
use wasm_shared_buffers.Lookup.Host.{create_lookup}
use wasm_shared_buffers.Lookup.Host.Create.{first_keys, last_value, create_lookup_lem}
use wasm_shared_buffers.Lookup.Utf8.{is_utf8, is_utf8-ascii}

abbrev pub key_size_low : ℕ
key_size_low = 5

abbrev pub key_size_high : ℕ
key_size_high = 40

abbrev pub val_size_low : ℕ
val_size_low = 10

abbrev pub val_size_high : ℕ
val_size_high = 200

-- 0-9, A-Z, a-z
abbrev pub IsAlphanumeric : ℕ → Type 0
IsAlphanumeric b = ((48 ≤ b) × (b ≤ 57)) ⊎ (((65 ≤ b) × (b ≤ 90)) ⊎ ((97 ≤ b) × (b ≤ 122)))

pub record IsGenerated (e : KeyValue) : Type 0 where
  pub key_chars : All IsAlphanumeric e.key
  pub val_chars : All IsAlphanumeric e.val
  pub key_long : key_size_low ≤ length e.key
  pub key_short : length e.key ≤ key_size_high
  pub val_long : val_size_low ≤ length e.val
  pub val_short : length e.val ≤ val_size_high

All-weaken {ℓ} :
    {A : Type 0} (P Q : A → Type ℓ) (xs : List A) → ((x : A) → P x → Q x) → All P xs → All Q xs
All-weaken P Q [] f all = tt
All-weaken P Q (x ∷ xs) f (p, all) = (f x p, All-weaken P Q xs f all)

pub IsGenerated-short :
    (es : List KeyValue) → All IsGenerated es → All (λ e. length e.key < u32_mod) es
IsGenerated-short es all =
    All-weaken IsGenerated (λ e. length e.key < u32_mod) es (λ e g. omega (arith, g.key_short)) all

IsAlphanumeric-utf8 : (k : Bytes) → All IsAlphanumeric k → is_utf8 k ≡ true
IsAlphanumeric-utf8 k all =
    is_utf8-ascii k (All-weaken IsAlphanumeric (λ b. b < 128) k (λ b h. omega arith) all)

pub first_keys-utf8 :
    (n : ℕ) (es : List KeyValue)
    → All IsGenerated es
    → All (λ k. is_utf8 k ≡ true) (first_keys n es)
first_keys-utf8 n [] all = tt
first_keys-utf8 zero (e ∷ es) all = tt
first_keys-utf8 (suc n) (e ∷ es) (g, all) =
    (IsAlphanumeric-utf8 e.key g.key_chars, first_keys-utf8 n es all)

last_value-short :
    (k : Bytes) (es : List KeyValue) (old : Option Bytes) (v : Bytes)
    → All IsGenerated es
    → ((u : Bytes) → old ≡ some u → length u ≤ val_size_high)
    → last_value k es old ≡ some v
    → length v ≤ val_size_high
last_value-short k [] old v all h e = h v e
last_value-short k (x ∷ es) old v (g, all) h e =
    last_value-short k es (if eq_bytes x.key k then some x.val else old) v all
      (λ u. elim (Bool-cases (eq_bytes x.key k)) [
        | inl same ↦ λ f.
            let hit : some x.val ≡ some u = rw same at f in
            let val : x.val ≡ u = cc hit in rw (← val) g.val_short
        | inr apart ↦ λ f. h u (rw apart at f)
      ])
      e

-- Every value of the map is at most 200 bytes long.
pub values-short :
    (test_keys : ℕ) (pairs : List KeyValue) (k v : Bytes)
    → All IsGenerated pairs
    → find k (create_lookup test_keys pairs).lookup ≡ some v
    → length v ≤ val_size_high
values-short test_keys pairs k v all e =
    let (_, found, _) = create_lookup_lem test_keys pairs (IsGenerated-short pairs all) in
    last_value-short k pairs none v all (λ u f. absurd (cc f)) (sym (found k) ∙ e)

-- The key of the last test of `verify_lookups`.
abbrev pub missing_key : Bytes
missing_key =
    b'4' ∷ b'0' ∷ b'4' ∷ b' ' ∷ b'n' ∷ b'o' ∷ b't' ∷ b' ' ∷ b'f' ∷ b'o' ∷ b'u' ∷ b'n' ∷ b'd' ∷ []

pub missing_key-utf8 : is_utf8 missing_key ≡ true
missing_key-utf8 = is_utf8-ascii missing_key (omega arith)

-- It has a blank.
missing_key-apart : (k : Bytes) → All IsAlphanumeric k → k ≢ missing_key
missing_key-apart k all e =
    let chars : All IsAlphanumeric missing_key = subst (All IsAlphanumeric) e all in
    let blank = chars.1.1.1.0 in omega arith

last_value-missing :
    (es : List KeyValue) → All IsGenerated es → last_value missing_key es none ≡ none
last_value-missing [] all = refl
last_value-missing (e ∷ es) (g, all) = elim (Bool-cases (eq_bytes e.key missing_key)) [
  | inl same ↦
      absurd (missing_key-apart e.key g.key_chars ((eq_bytes_iff e.key missing_key).0 same))
  | inr apart ↦ rw apart (last_value-missing es all)
]

-- No generated key is the missing key, which has a blank.
pub find-missing_key :
    (test_keys : ℕ) (pairs : List KeyValue)
    → All IsGenerated pairs
    → find missing_key (create_lookup test_keys pairs).lookup ≡ none
find-missing_key test_keys pairs all =
    let (_, found, _) = create_lookup_lem test_keys pairs (IsGenerated-short pairs all) in
    found missing_key ∙ last_value-missing pairs all
