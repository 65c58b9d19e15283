-- ===== src/Gtk/Buffers/Dropped.antt =====
-- The pages that a container and the host give back at their end.
use wasm_shared_buffers.Base.{
  ℕ, ◌+◌, ◌/◌, ◌%◌, ◌<◌, ◌≡◌, refl, ap, ◌∙◌, Bool, true, false, ◌||◌, Option, none, List, arith,
  ◌==◌, if◌then◌else◌, ok,
}
use wasm_shared_buffers.Gtk.Signals.{send_signal}
use wasm_shared_buffers.Posix.{Flag, Libc, cstring}
use wasm_shared_buffers.Gtk.Buffers.{
  unmap_unless_null, drop_buffers, drop_host, read_only_buf_name, read_write_buf_name,
  read_only_buf_size, read_write_buf_size,
}
use wasm_shared_buffers.Posix.Pages.{IsLibc, covers, Unmaps}

either :
    {A : Type 0} (a b : Bool) (x y : A)
    → (if a then x else if b then x else y) ≡ (if a || b then x else y)
either true b x y = refl
either false b x y = refl

next_page : (ptr : ℕ) → ptr % 4096 ≡ 0 → covers ptr read_write_buf_size (ptr / 4096 + 1) ≡ false
next_page ptr e = ground arith

next_page_dropped :
    (ptr : ℕ) → ptr % 4096 ≡ 0 → covers ptr read_only_buf_size (ptr / 4096 + 1) ≡ true
next_page_dropped ptr e = ground arith

module _ {W : Type 0} (libc : Libc W) (page : W → ℕ → Option (List Flag)) (i : IsLibc libc page)
    (never : Unmaps libc) where
  -- Two buffers given back one after the other.
  two :
      (a b n m : ℕ) (w : W) (q : ℕ)
      → a % 4096 ≡ 0
      → b % 4096 ≡ 0
      → 0 < n
      → 0 < m
      → page (libc.munmap b m (libc.munmap a n w).1).1 q
        ≡ (if covers b m q || covers a n q then none else page w q)
  two a b n m w q ea eb pn pm =
      i.unmaps b m (libc.munmap a n w).1 q eb (never b m (libc.munmap a n w).1 eb pm)
      ∙ ap (λ p. if covers b m q then none else p) (i.unmaps a n w q ea (never a n w ea pn))
      ∙ either (covers b m q) (covers a n q) none (page w q)

  nonzero : (a : ℕ) → 0 < a → (a == 0) ≡ false
  nonzero a h = ground arith

  -- What the host has given back after its end.
  pub record Ends (bytes : ℕ → ℕ × ℕ) (ro rw_ : ℕ) (w : W) : Type 0 where
    pub after : W
    pub run : (drop_host libc bytes ro rw_ w).1 ≡ ok after
    pub pages :
        (q : ℕ)
        → page after q ≡ (
            if covers rw_ read_only_buf_size q || covers ro read_only_buf_size q
            then none
            else page w q)
    pub beyond : covers rw_ read_write_buf_size (rw_ / 4096 + 1) ≡ false
    pub lost : page after (rw_ / 4096 + 1) ≡ none

  host-Ends :
      (bytes : ℕ → ℕ × ℕ) (ro rw_ : ℕ) (w : W)
      → ro % 4096 ≡ 0
      → rw_ % 4096 ≡ 0
      → Ends bytes ro rw_ w
  unfolding drop_host cstring send_signal
  host-Ends bytes ro rw_ w er ew =
      let w₂ = (libc.munmap rw_ read_only_buf_size (libc.munmap ro read_only_buf_size w).1).1 in
      let w₃ = (libc.shm_unlink read_only_buf_name w₂).1 in
      let freed = λ (q : ℕ).
        i.unlinks read_write_buf_name w₃ q
        ∙ i.unlinks read_only_buf_name w₂ q
        ∙ two ro rw_ read_only_buf_size read_only_buf_size w q er ew (omega arith) (omega arith) in
      record {
        after = (libc.shm_unlink read_write_buf_name w₃).1;
        run = refl;
        pages = freed;
        beyond = next_page rw_ ew;
        lost = freed (rw_ / 4096 + 1) ∙ rw (next_page_dropped rw_ ew) refl;
      }

  -- For buffers at page boundaries, a container gives back exactly the pages of its two buffers.
  -- The host ends well and gives back the pages of its read-only buffer, and from the read-write
  -- buffer on as many as the read-only one has: also the page behind it, which it never mapped.
  pub drop-Unmaps :
      (bytes : ℕ → ℕ × ℕ) (ro rw_ index signal : ℕ) (w : W)
      → 0 < ro
      → 0 < rw_
      → ro % 4096 ≡ 0
      → rw_ % 4096 ≡ 0
      → ((q : ℕ)
          → page
              (drop_buffers libc
                (record { shared_ro = ro; shared_rw = rw_; index = index; signal = signal })
                w)
              q
            ≡ (if covers rw_ read_write_buf_size q || covers ro read_only_buf_size q
                then none
                else page w q))
        × Ends bytes ro rw_ w
  unfolding drop_buffers unmap_unless_null
  drop-Unmaps bytes ro rw_ index signal w pr pw er ew = (
    (λ q.
        rw (nonzero ro pr, nonzero rw_ pw)
          (two ro rw_ read_only_buf_size read_write_buf_size w q er ew (omega arith)
            (omega arith))),
    host-Ends bytes ro rw_ w er ew,
  )
