-- ===== src/Journal/Crash.antt =====
-- What is read after a clean end, and after the writer was cut off within a record.
use rocket_cat_shell_linux.Base.{
  ℕ, zero, suc, ◌+◌, ◌-◌, ◌<◌, ◌≤◌, ◌≡◌, refl, sym, ap, ◌∙◌, some, List, [], ◌++◌, length, take,
  length-append, length-take, take-append, take_all, arith, All,
}
use rocket_cat_shell_linux.Base.Result.{ok}
use rocket_cat_shell_linux.Journal.{
  Bytes, Pickle, end_of_file, Reading, take_frame, iter_from, iter_records, write_record,
  write_records,
}
use rocket_cat_shell_linux.Journal.Frame.{
  unpack-header, IsRecord, frame, frames, write_record-frame, write_records-frames,
  iter_from-frames, length-frames-le,
}
use mathlib.Core.List.{append-nil}

module _ (p : Pickle) where
  open p use {Object, dumps, dumps_pos}

  take_frame-short :
      (o : Object) (k : ℕ) (rest : Reading p)
      → k < length (dumps o)
      → (take_frame p (length (dumps o)) (take k (dumps o)) rest).records ≡ []
  unfolding take_frame
  take_frame-short o k rest h =
      rw
        (
          take_all (length (dumps o)) (take k (dumps o)) (omega (arith, length-take k (dumps o))),
          take_frame,
        )
        (ground (arith, length-take k (dumps o), dumps_pos o))

  -- A part of a frame yields nothing.
  iter_from-torn :
      (fuel k : ℕ) (o : Object)
      → k ≤ fuel
      → k < length (frame p o)
      → (iter_from p fuel (take k (frame p o))).records ≡ []
  unfolding iter_from
  iter_from-torn fuel zero o e h = refl
  iter_from-torn zero (suc k) o e h = absurd (omega arith)
  iter_from-torn (suc fuel) (suc zero) o e h = refl
  iter_from-torn (suc fuel) (suc (suc zero)) o e h = refl
  iter_from-torn (suc fuel) (suc (suc (suc zero))) o e h = refl
  iter_from-torn (suc fuel) (suc (suc (suc (suc k)))) o e h =
      rw (unpack-header (length (dumps o)), iter_from) (take_frame-short o k _ (omega arith))

  -- Whole frames and what is read after them.
  read_frames :
      (fuel : ℕ) (l : List Object) (s : Bytes)
      → All (IsRecord p) l
      → length l ≤ fuel
      → iter_from p fuel (frames p l ++ s) ≡ record {
        records = l ++ (iter_from p (fuel - length l) s).records;
        stop = (iter_from p (fuel - length l) s).stop;
      }
  read_frames fuel l s h e =
      let split : fuel ≡ length l + (fuel - length l) = omega arith in
      ap (λ (f : ℕ). iter_from p f (frames p l ++ s)) split
      ∙ iter_from-frames p (fuel - length l) l s h

  module _ (l : List Object) (good : All (IsRecord p) l) (journal : Bytes)
      (written : write_records p [] l ≡ ok journal) where
    journal-frames : journal ≡ frames p l
    journal-frames = ground (arith, write_records-frames p [] l good)

    iter_records-written :
        iter_records p (some journal) ≡ record { records = l; stop = end_of_file }
    unfolding iter_records
    iter_records-written = rw journal-frames (
        ap (iter_from p (length (frames p l))) (sym (append-nil (frames p l)))
        ∙ read_frames (length (frames p l)) l [] good (length-frames-le p l)
        ∙ unfold iter_from in
          ap (λ (r : List Object). record { records = r; stop = end_of_file }) (append-nil l))

    pub iter_records-torn :
        (o : Object) (longer : Bytes) (n : ℕ)
        → IsRecord p o
        → write_record p journal o ≡ ok longer
        → length journal ≤ n
        → n < length longer
        → (iter_records p (some (take n longer))).records ≡ l
    unfolding iter_records
    iter_records-torn o longer n ho more low high =
        let whole : longer ≡ frames p l ++ frame p o =
          ground (arith, write_record-frame p journal o ho, journal-frames) in
        let k = n - length (frames p l) in
        let starts : length (frames p l) ≤ n = rw (← journal-frames) low in
        let cut : take n longer ≡ frames p l ++ take k (frame p o) =
          ap (take n) whole ∙ take-append n (frames p l) (frame p o) starts in
        let size : n < length (frames p l) + length (frame p o) =
          omega
            (arith, ap (λ (q : Bytes). length q) whole, length-append (frames p l) (frame p o)) in
        rw cut (
          ap (λ (r : Reading p). r.records)
            (read_frames _ l (take k (frame p o)) good (
              omega (arith, length-frames-le p l, length-append (frames p l) (take k (frame p o)))))
          ∙ ap (λ (r : List Object). l ++ r)
              (iter_from-torn _ k o
                (omega (
                  arith,
                  length-frames-le p l,
                  length-append (frames p l) (take k (frame p o)),
                  length-take k (frame p o),
                ))
                (omega arith))
          ∙ append-nil l)

    -- When one more record is written, the records before it are read from the whole file, in order, up
    -- to its end, and just the same records if the file ends anywhere within the last one.
    pub iter_records-write_records :
        (o : Object) (longer : Bytes) (n : ℕ)
        → IsRecord p o
        → write_record p journal o ≡ ok longer
        → length journal ≤ n
        → n < length longer
        → (iter_records p (some journal) ≡ record { records = l; stop = end_of_file })
          × ((iter_records p (some (take n longer))).records ≡ l)
    iter_records-write_records o longer n ho more low high =
        (iter_records-written, iter_records-torn o longer n ho more low high)
