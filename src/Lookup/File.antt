-- ===== src/Lookup/File.antt =====
-- A shared memory file as rust/lookup/src/main.rs uses it through `std::fs::File`: its bytes and
-- the position that the next write begins at.
use wasm_shared_buffers.Base.{
  ℕ, zero, suc, ◌+◌, ◌≡◌, refl, ap, [], ◌∷◌, ◌++◌, take, replicate, length, length-append, arith,
  append-nil,
}
use wasm_shared_buffers.Lookup.Entry.{Bytes}

pub record File : Type 0 where
  pub bytes : Bytes
  pub pos : ℕ

-- The file as `shm_open` with `O_CREAT | O_TRUNC` gives it.
abbrev pub truncated : File
truncated = record { bytes = []; pos = 0 }

-- `set_len`: cut off, or filled up with zeros. The position stays.
unfoldable pub set_len : File → ℕ → File
set_len f n = record f { bytes = take n (f.bytes ++ replicate n 0) }

-- `seek(SeekFrom::Start(n))` and `seek(SeekFrom::End(0))`.
unfoldable pub seek_start : File → ℕ → File
seek_start f n = record f { pos = n }

unfoldable pub seek_end : File → File
seek_end f = record f { pos = length f.bytes }

-- The bytes after a write at `p`; a gap behind the end is filled with zeros.
unfoldable pub write_at : Bytes → ℕ → Bytes → Bytes
write_at [] zero bs = bs
write_at [] (suc p) bs = 0 ∷ write_at [] p bs
write_at (x ∷ m) zero [] = x ∷ m
write_at (x ∷ m) zero (b ∷ bs) = b ∷ write_at m zero bs
write_at (x ∷ m) (suc p) bs = x ∷ write_at m p bs

-- `write_all`; writing no bytes leaves the file alone.
unfoldable pub write_all : File → Bytes → File
unfolding write_at
write_all f [] = f
write_all f (b ∷ bs) = record {
  bytes = write_at f.bytes f.pos (b ∷ bs);
  pos = f.pos + length (b ∷ bs);
}

pub write_at-overwrite :
    (pre mid post bs : Bytes)
    → length mid ≡ length bs
    → write_at (pre ++ (mid ++ post)) (length pre) bs ≡ pre ++ (bs ++ post)
unfolding write_at
write_at-overwrite (x ∷ pre) mid post bs h = ap (λ t. x ∷ t) (write_at-overwrite pre mid post bs h)
write_at-overwrite [] [] [] [] h = refl
write_at-overwrite [] [] (x ∷ post) [] h = refl
write_at-overwrite [] (x ∷ mid) post [] h = absurd (omega arith)
write_at-overwrite [] [] post (b ∷ bs) h = absurd (omega arith)
write_at-overwrite [] (x ∷ mid) post (b ∷ bs) h =
    ap (λ t. b ∷ t) (write_at-overwrite [] mid post bs (omega arith))

pub write_at_end : (m bs : Bytes) → write_at m (length m) bs ≡ m ++ bs
unfolding write_at
write_at_end [] bs = refl
write_at_end (x ∷ m) bs = ap (λ t. x ∷ t) (write_at_end m bs)

-- At the end of the file `write_all` appends, and stays at the end.
pub write_all-seek_end :
    (bs cs : Bytes)
    → write_all (record { bytes = bs; pos = length bs }) cs
      ≡ record { bytes = bs ++ cs; pos = length (bs ++ cs) }
unfolding write_all
write_all-seek_end bs [] = rw (append-nil bs)
write_all-seek_end bs (c ∷ cs) = rw (write_at_end bs (c ∷ cs), length-append bs (c ∷ cs))
