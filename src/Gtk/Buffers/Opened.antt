-- ===== src/Gtk/Buffers/Opened.antt =====
-- The start of the host: `fork_container` and the beginning of `HostContext::new` of
-- rust/gtk/src/bin/host.rs. `fork` is a parameter; in the child `exec` replaces the process, so that
-- what follows is the failure of `exec`.
use wasm_shared_buffers.Base.{
  ℕ, ◌≡◌, refl, sym, ap, ◌∙◌, ◌≢◌, inl, inr, Bool, Bool-cases, true, false, Option, none, some,
  List, [], ◌∷◌, arith, if◌then◌else◌, Run, ok, panic, explicit, ◌>>=◌, >>=-eq-ok,
}
use wasm_shared_buffers.Posix.{Bytes, Flag, Libc, AreNonzero, prot_read, prot_write}
use wasm_shared_buffers.Posix.Pages.{IsLibc, covers, map_failed}
use wasm_shared_buffers.Gtk.Buffers.{
  create_shared_buffer, read_only_buf_name, read_write_buf_name, read_only_buf_size,
  read_write_buf_size,
}
use wasm_shared_buffers.Gtk.Buffers.Mapping.{
  Creates, created, unmapped, failed, create_shared_buffer-Creates,
}

pub data Fork : Type 0 where
  parent child fork_failed : Fork

unfoldable pub fork_container : {W : Type 0} → (W → Fork × W) → W → Run W
fork_container fork w = elim (fork w).0 [
  | parent ↦ ok (fork w).1
  | child ↦ panic explicit
  | fork_failed ↦ panic explicit
]

module _ {W : Type 0} (libc : Libc W) (fork : W → Fork × W) where
  -- The buffers, and the system when both containers run.
  unfoldable pub open_host : W → Run ((ℕ × ℕ) × W)
  open_host w = do
    (shared_ro, w₁) ← create_shared_buffer libc read_only_buf_name read_only_buf_size w
    (shared_rw, w₂) ← create_shared_buffer libc read_write_buf_name read_write_buf_size w₁
    w₃ ← fork_container fork w₂
    w₄ ← fork_container fork w₃
    ok ((shared_ro, shared_rw), w₄)

-- The results of the four calls of a start that ends well.
module _ {W : Type 0} where
  abbrev forking : (W → Run W) → Run W → ℕ → ℕ → Run ((ℕ × ℕ) × W)
  forking f r a b = do w₃ ← r; w₄ ← f w₃; ok ((a, b), w₄)

  abbrev starting : Run (ℕ × W) → (W → Run (ℕ × W)) → (W → Run W) → Run ((ℕ × ℕ) × W)
  starting r s f = do (a, w₁) ← r; (b, w₂) ← s w₁; forking f (f w₂) a b

  forks :
      (f : W → Run W) (r : Run W) (ro rw_ : ℕ) (a b : ℕ) (w' : W)
      → forking f r a b ≡ ok ((ro, rw_), w')
      → (a ≡ ro) × (b ≡ rw_) × (w₃ : W) × (r ≡ ok w₃) × (f w₃ ≡ ok w')
  forks f (panic why) ro rw_ a b w' e = absurd (cc e)
  forks f (ok w₃) ro rw_ a b w' e =
      let (w₄, run, end) = >>=-eq-ok {B = (ℕ × ℕ) × W} (f w₃) (λ w₄. ok ((a, b), w₄)) e in
      let same : w₄ ≡ w' = cc end in (cc end, cc end, w₃, refl, run ∙ ap ok same)

  calls :
      (r : Run (ℕ × W)) (s : W → Run (ℕ × W)) (f : W → Run W) (ro rw_ : ℕ) (w' : W)
      → starting r s f ≡ ok ((ro, rw_), w')
      → (w₁ : W) × (w₂ : W) × (w₃ : W) × (r ≡ ok (ro, w₁))
        × (s w₁ ≡ ok (rw_, w₂))
        × (f w₂ ≡ ok w₃)
        × (f w₃ ≡ ok w')
  calls (panic why) s f ro rw_ w' e = absurd (cc e)
  calls (ok (a, w₁)) s f ro rw_ w' e =
      let ((b, w₂), second, rest) =
        >>=-eq-ok {B = (ℕ × ℕ) × W} (s w₁) (λ y. forking f (f y.1) a y.0) e in
      let (same_ro, same_rw, w₃, third, fourth) = forks f (f w₂) ro rw_ a b w' rest in
      (w₁, w₂, w₃, rw same_ro refl, second ∙ ap (λ n. ok (n, w₂)) same_rw, third, fourth)

abbrev read_write : Option (List Flag)
read_write = some (prot_read ∷ prot_write ∷ [])

read_only_buf_name-AreNonzero : AreNonzero read_only_buf_name
read_only_buf_name-AreNonzero = ground arith

read_write_buf_name-AreNonzero : AreNonzero read_write_buf_name
read_write_buf_name-AreNonzero = ground arith

module _ {W : Type 0} (libc : Libc W) (page : W → ℕ → Option (List Flag)) where
  -- A buffer at `buf` is new, can be written, and everything else is as before.
  record IsNew (w w' : W) (buf size : ℕ) : Type 0 where
    access : (q : ℕ) → page w' q ≡ (if covers buf size q then read_write else page w q)
    was_free : (q : ℕ) → covers buf size q ≡ true → page w q ≡ none

  Creates-IsNew :
      (name : Bytes) (size : ℕ) (w : W) {r : Run (ℕ × W)} (buf : ℕ) (w' : W)
      → Creates libc page name size w r
      → r ≡ ok (buf, w')
      → buf ≢ map_failed
      → IsNew w w' buf size
  Creates-IsNew name size w buf w' (created {buf = b} {w' = v} a n all free) e there =
      let same : b ≡ buf = cc e in
      let left : v ≡ w' = cc e in
      record { access = rw (← same, ← left) all; was_free = rw (← same) free }
  Creates-IsNew name size w buf w' (unmapped a n) e there = absurd (there (cc e))
  Creates-IsNew name size w buf w' (failed a) e there = absurd (cc e)

  fork_container-page :
      (fork : W → Fork × W)
      → ((w : W) (q : ℕ) → page (fork w).1 q ≡ page w q)
      → (w w' : W) → fork_container fork w ≡ ok w'
      → (q : ℕ) → page w' q ≡ page w q
  unfolding fork_container
  fork_container-page fork keeps w w' e q =
      elim (fork w).0
          as (λ f.
            elim f [
              | parent ↦ ok (fork w).1
              | child ↦ panic explicit
              | fork_failed ↦ panic explicit
            ]
              ≡ ok w'
            → page w' q ≡ page w q) [
              | parent ↦ λ d.
                  (let same : (fork w).1 ≡ w' = cc d in ap (λ v. page v q) (sym same) ∙ keeps w q)
              | child ↦ λ d. absurd (cc d)
              | fork_failed ↦ λ d. absurd (cc d)
            ]
        e

  -- The two buffers of the host: free before, writable now, on different pages.
  pub record Opens (w w' : W) (ro rw_ : ℕ) : Type 0 where
    pub ro_access : (q : ℕ) → covers ro read_only_buf_size q ≡ true → page w' q ≡ read_write
    pub rw_access : (q : ℕ) → covers rw_ read_write_buf_size q ≡ true → page w' q ≡ read_write
    pub apart :
        (q : ℕ) → covers ro read_only_buf_size q ≡ true → covers rw_ read_write_buf_size q ≡ false
    pub ro_free : (q : ℕ) → covers ro read_only_buf_size q ≡ true → page w q ≡ none
    pub rw_free : (q : ℕ) → covers rw_ read_write_buf_size q ≡ true → page w q ≡ none
    pub kept :
        (q : ℕ)
        → covers ro read_only_buf_size q ≡ false
        → covers rw_ read_write_buf_size q ≡ false
        → page w' q ≡ page w q

  two-Opens :
      (w w₁ w₂ : W) (ro rw_ : ℕ)
      → IsNew w w₁ ro read_only_buf_size
      → IsNew w₁ w₂ rw_ read_write_buf_size
      → Opens w w₂ ro rw_
  two-Opens w w₁ w₂ ro rw_ a b =
      let apart_ = λ (q : ℕ) (e : covers ro read_only_buf_size q ≡ true).
        two_apart (covers rw_ read_write_buf_size q) (page w₁ q) (a.access q ∙ rw e refl)
          (b.was_free q) in
      record {
        ro_access = λ q e. b.access q ∙ rw (apart_ q e) (a.access q ∙ rw e refl);
        rw_access = λ q e. b.access q ∙ rw e refl;
        apart = apart_;
        ro_free = a.was_free;
        rw_free = λ q e. elim (Bool-cases (covers ro read_only_buf_size q)) [
          | inl c ↦ let other = apart_ q c in absurd (cc (e, other))
          | inr c ↦ (sym (a.access q ∙ rw c refl)) ∙ b.was_free q e
        ];
        kept = λ q e f. b.access q ∙ rw f (a.access q ∙ rw e refl);
      }
    where
      two_apart :
          (covered : Bool) (at : Option (List Flag))
          → at ≡ read_write
          → (covered ≡ true → at ≡ none)
          → covered ≡ false
      two_apart false at e f = refl
      two_apart true at e f = let none_ = f refl in absurd (cc (e, none_))

  Opens-kept :
      (w w₂ w' : W) (ro rw_ : ℕ)
      → ((q : ℕ) → page w' q ≡ page w₂ q)
      → Opens w w₂ ro rw_
      → Opens w w' ro rw_
  Opens-kept w w₂ w' ro rw_ same o = record {
    ro_access = λ q e. same q ∙ o.ro_access q e;
    rw_access = λ q e. same q ∙ o.rw_access q e;
    apart = o.apart;
    ro_free = o.ro_free;
    rw_free = o.rw_free;
    kept = λ q e f. same q ∙ o.kept q e f;
  }

  -- When the host has started, and neither mapping has failed, its two buffers are on different
  -- pages that were free before, it may read and write them, and all its other pages are as they
  -- were.
  pub open_host-Opens :
      (fork : W → Fork × W) (w w' : W) (ro rw_ : ℕ)
      → IsLibc libc page
      → ((w : W) (q : ℕ) → page (fork w).1 q ≡ page w q)
      → open_host libc fork w ≡ ok ((ro, rw_), w')
      → ro ≢ map_failed
      → rw_ ≢ map_failed
      → Opens w w' ro rw_
  unfolding open_host
  open_host-Opens fork w w' ro rw_ i keeps run ro_there rw_there =
      let (w₁, w₂, w₃, first, second, third, fourth) =
        calls (create_shared_buffer libc read_only_buf_name read_only_buf_size w)
          (create_shared_buffer libc read_write_buf_name read_write_buf_size) (fork_container fork)
          ro rw_ w' run in
      let new₁ =
        Creates-IsNew read_only_buf_name read_only_buf_size w ro w₁
          (create_shared_buffer-Creates libc page read_only_buf_name read_only_buf_size w i
            read_only_buf_name-AreNonzero)
          first ro_there in
      let new₂ =
        Creates-IsNew read_write_buf_name read_write_buf_size w₁ rw_ w₂
          (create_shared_buffer-Creates libc page read_write_buf_name read_write_buf_size w₁ i
            read_write_buf_name-AreNonzero)
          second rw_there in
      Opens-kept w w₂ w' ro rw_
        (λ q.
          fork_container-page fork keeps w₃ w' fourth q
          ∙ fork_container-page fork keeps w₂ w₃ third q)
        (two-Opens w w₁ w₂ ro rw_ new₁ new₂)
