-- ===== src/Journal/Frame.antt =====
-- A written frame is read back.
use rocket_cat_shell_linux.Base.{
  ℕ, suc, ◌+◌, ◌/◌, ◌%◌, ◌<◌, ◌≤◌, ◌≡◌, ap, ◌∙◌, true, List, [], ◌∷◌, ◌++◌, length,
  take-append_self, drop-append_self, length-append, arith, All,
}
use rocket_cat_shell_linux.Base.Result.{ok}
use rocket_cat_shell_linux.Journal.{
  Bytes, Pickle, unpack, Reading, with_record, take_frame, iter_from, write_record, write_records,
}
use mathlib.Core.List.{append_assoc, append-nil}
use native.Mathlib.Nat.{suc-add, zero-add}

-- The four bytes of a length.
abbrev pub header : ℕ → Bytes
header n = n % 256 ∷ n / 256 % 256 ∷ n / 65536 % 256 ∷ n / 16777216 ∷ []

pub unpack-header : (n : ℕ) → unpack (header n) ≡ n
unfolding unpack
unpack-header n = omega arith

module _ (p : Pickle) where
  open p use {Object, is_dict, dumps, loads, loads-dumps, dumps_pos}

  -- Records that `_write_record` accepts and `iter_records` yields.
  abbrev pub IsRecord : Object → Type 0
  IsRecord o = (is_dict o ≡ true) × (length (dumps o) < 4294967296)

  abbrev pub frame : Object → Bytes
  frame o = header (length (dumps o)) ++ dumps o

  abbrev pub frames : List Object → Bytes
  frames [] = []
  frames (o ∷ l) = frame o ++ frames l

  pub write_record-frame :
      (journal : Bytes) (o : Object)
      → IsRecord o
      → write_record p journal o ≡ ok (journal ++ frame o)
  unfolding write_record
  write_record-frame journal o h = ground arith

  pub write_records-frames :
      (journal : Bytes) (l : List Object)
      → All IsRecord l
      → write_records p journal l ≡ ok (journal ++ frames l)
  unfolding write_records
  write_records-frames journal [] h = rw append-nil
  write_records-frames journal (o ∷ l) h = rw (write_record-frame journal o h.0) (
      write_records-frames (journal ++ frame o) l h.1
      ∙ ap (λ (q : Bytes). ok q) (append_assoc journal (frame o) (frames l)))

  take_frame-dumps :
      (o : Object) (s : Bytes) (rest : Reading p)
      → is_dict o ≡ true
      → take_frame p (length (dumps o)) (dumps o ++ s) rest ≡ with_record p o rest
  unfolding take_frame
  take_frame-dumps o s rest h =
      rw (take-append_self (dumps o) s, take_frame) (ground (arith, loads-dumps o, dumps_pos o, h))

  -- One frame is one round of the loop.
  pub iter_from-frame :
      (fuel : ℕ) (o : Object) (s : Bytes)
      → IsRecord o
      → iter_from p (suc fuel) (frame o ++ s) ≡ with_record p o (iter_from p fuel s)
  unfolding iter_from
  iter_from-frame fuel o s h =
      rw (unpack-header (length (dumps o)), iter_from)
        (rw (drop-append_self (dumps o) s) (take_frame-dumps o s (iter_from p fuel s) h.0))

  -- Whole frames are read, whatever follows.
  pub iter_from-frames :
      (fuel : ℕ) (l : List Object) (s : Bytes)
      → All IsRecord l
      → iter_from p (length l + fuel) (frames l ++ s)
        ≡ record { records = l ++ (iter_from p fuel s).records; stop = (iter_from p fuel s).stop }
  iter_from-frames fuel [] s h = rw zero-add
  iter_from-frames fuel (o ∷ l) s h =
      rw (suc-add, append_assoc (frame o) (frames l) s)
        (iter_from-frame (length l + fuel) o (frames l ++ s) h.0
          ∙ ap (with_record p o) (iter_from-frames fuel l s h.1))

  -- the loop has fuel enough for the frames
  pub length-frames-le : (l : List Object) → length l ≤ length (frames l)
  length-frames-le [] = omega arith
  length-frames-le (o ∷ l) = omega (arith, length-frames-le l, length-append (frame o) (frames l))
