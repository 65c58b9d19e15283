-- ===== src/Profile.antt =====
-- The memory profile (profile/src-rust): a wasm module that counts its calls, and containers that
-- run up to a hundred instances of it and compare the counts. profile.sh builds in release mode.
pub mod Synced
mod Tests
use wasm_shared_buffers.Base.{
  ℕ, zero, suc, ◌+◌, ◌-◌, ◌*◌, ◌/◌, ◌%◌, ◌^◌, ◌≤◌, ◌<◌, ◌≡◌, refl, sym, ap, ◌∙◌, ◌≢◌, ◌↔◌, ◌⊎◌, inl,
  inr, Bool, true, false, not, ◌&&◌, ◌||◌, Option, none, some, List, [], ◌∷◌, ◌++◌, arith, ltb, leb,
  ◌==◌, if◌then◌else◌, le→leb, lt→ltb, ltb→lt, leb→le, ==_iff, Bool-cases, Option-cases, length,
  get_elem?, get_or, take, drop, replicate, All, Run, ok, panic, overflow, explicit, index,
  assertion, ◌>>=◌, ◌>>◌, check, assert, item, >>=-eq-ok, length-replicate, length-append,
}
use wasm_shared_buffers.Int.{
  ℤ, pos, negsuc, pos_part, neg_part, sub_ℕ, ◌+ℤ◌, ◌-ℤ◌, ◌*ℤ◌, ltb_ℤ, as_i32, as_usize, Profile,
  debug, release, overflows, wrap, fit, saturating_add, abs_i32, rem3, fit-ok, as_usize-as_i32,
  as_i32-low,
}

-- `tick` of module-rust.rs: the new COUNTER, which is also the result.
unfoldable pub module_tick : Profile → ℤ → Run ℤ
module_tick p counter = fit p (counter +ℤ pos 1)

abbrev pub instance_limit : ℕ
instance_limit = 100

unfoldable pub eq_ℤ : ℤ → ℤ → Bool
eq_ℤ (pos m) (pos n) = m == n
eq_ℤ (negsuc m) (negsuc n) = m == n
eq_ℤ _ _ = false

-- One round of the inner loop of container-wasmer.rs: from an instance's COUNTER and `counter[i]`
-- to the new ones.
unfoldable pub wasmer_step : Profile → ℤ → ℤ → Run (ℤ × ℤ)
wasmer_step p i c = do
  val ← module_tick p i
  c' ← fit p (c +ℤ pos 1)
  assert (eq_ℤ val c')
  ok (val, c')

-- The value of a call in wasmi.
pub data RuntimeValue : Type 0 where
  i32 : ℤ → RuntimeValue
  other : RuntimeValue

-- The `if let` of container-wasmi.rs.
unfoldable pub count_value : Profile → RuntimeValue → ℤ → Run ℤ
count_value p (i32 val) c = do c' ← fit p (c +ℤ pos 1); assert (eq_ℤ val c'); ok c'
count_value p other c = ok c

unfoldable pub wasmi_step : Profile → ℤ → ℤ → Run (ℤ × ℤ)
wasmi_step p i c = do i' ← module_tick p i; c' ← count_value p (i32 i') c; ok (i', c')

pub record Container : Type 0 where
  pub instance_ : List ℤ
  pub counter : List ℤ
  pub wi : ℕ

unfoldable pub start : Container
start = record { instance_ = []; counter = replicate instance_limit (pos 0); wi = 0 }

-- A new instance, as long as there is room; its COUNTER is zero.
unfoldable pub grow : Container → Container
grow s =
    if ltb s.wi instance_limit
    then record s { instance_ = s.instance_ ++ (pos 0 ∷ []); wi = s.wi + 1 }
    else s

module _ (step : ℤ → ℤ → Run (ℤ × ℤ)) where
  -- The inner loop: `n` instances, from the first ones of the lists on.
  unfoldable pub tick_all : ℕ → List ℤ → List ℤ → Run (List ℤ × List ℤ)
  tick_all zero is cs = ok (is, cs)
  tick_all (suc n) [] cs = panic index
  tick_all (suc n) (i ∷ is) [] = panic index
  tick_all (suc n) (i ∷ is) (c ∷ cs) = do
    (i', c') ← step i c
    (is', cs') ← tick_all n is cs
    ok (i' ∷ is', c' ∷ cs')

  unfoldable pub round : Container → Run Container
  round s = do
    let s₁ = grow s
    (is, cs) ← tick_all s₁.wi s₁.instance_ s₁.counter
    ok (record s₁ { instance_ = is; counter = cs })

  -- The first `n` rounds of the outer loop.
  unfoldable pub run : ℕ → Container → Run Container
  run zero s = ok s
  run (suc n) s = do s₁ ← round s; run n s₁
