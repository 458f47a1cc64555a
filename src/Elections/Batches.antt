-- ===== src/Elections/Batches.antt =====
-- The batches of `load_rows` and the tables of numbers, beside a loop that writes each row at once.
use brasil_lens_backend.Common.{
  ℕ, ◌≡◌, refl, none, some, List, [], ◌∷◌, ◌++◌, nat_eq, list_eq, arith,
}
use brasil_lens_backend.Errors.{Result, ok, raise}
use brasil_lens_backend.Elections.Numbers.{integer_eq}
use brasil_lens_backend.Elections.{Row, Reader, Counts, ElectionStage, dimensions}
use brasil_lens_backend.Elections.Offices.{Text}
use brasil_lens_backend.Elections.Load.{
  Family, Entry, Loading, execute, execute_many, flush, entry_of, load_row, load_each, load_rows,
}

pub execute_many-append :
    (c : Counts) (es fs : List Entry)
    → execute_many c (es ++ fs) ≡ execute_many (execute_many c es) fs
unfolding execute_many
execute_many-append c [] fs = refl
execute_many-append c (e ∷ es) fs = execute_many-append (execute c e) es fs

-- What the tables hold once the batch is written.
abbrev counted : Loading → Counts
counted st = execute_many st.db.counts st.batch

pub counted-flush : (st : Loading) → counted (flush st) ≡ counted st
unfolding flush execute_many
counted-flush st = refl

module _ (strptime : Text → Result ℕ) where
  -- The entries of a row, and of a file, each written at once.
  unfoldable pub row_entries : Family → Reader → Row → Reader × Result (List Entry)
  row_entries family r row =
      let (reader, read) = dimensions strptime r row in
      elim read [
        | raise e ↦ (reader, raise e)
        | ok none ↦ (reader, ok [])
        | ok (some place) ↦ elim (entry_of family row place) [
          | none ↦ (reader, ok [])
          | some entries ↦ (reader, ok entries)
        ]
      ]

  unfoldable pub count_each :
      Family → Reader → Counts → List Row → Reader × Counts × Result (Unit {0})
  unfolding row_entries
  count_each family r c [] = (r, c, ok tt)
  count_each family r c (row ∷ rows) =
      let (reader, read) = row_entries family r row in
      elim read [
        | raise e ↦ (reader, c, raise e)
        | ok entries ↦ count_each family reader (execute_many c entries) rows
      ]

  abbrev done : Result (List Entry) → Result (Unit {0})
  done (raise e) = raise e
  done (ok _) = ok tt

  abbrev added : Result (List Entry) → List Entry
  added (raise e) = []
  added (ok entries) = entries

  counted-load_row :
      (n : ℕ) (family : Family) (st : Loading) (row : Row)
      → ((load_row strptime n family st row).0.reader ≡ (row_entries family st.reader row).0)
        × ((load_row strptime n family st row).1 ≡ done (row_entries family st.reader row).1)
        × (counted (load_row strptime n family st row).0
            ≡ execute_many (counted st) (added (row_entries family st.reader row).1))
  unfolding load_row row_entries execute_many flush
  counted-load_row n family st row = ground (
    arith,
    execute_many-append st.db.counts st.batch (added (row_entries family st.reader row).1),
  )

  load_each_lem :
      (n : ℕ) (family : Family) (st : Loading) (rows : List Row)
      → ((load_each strptime n family st rows).0.reader
          ≡ (count_each family st.reader (counted st) rows).0)
        × ((load_each strptime n family st rows).1
            ≡ (count_each family st.reader (counted st) rows).2)
        × (counted (load_each strptime n family st rows).0
            ≡ (count_each family st.reader (counted st) rows).1)
  unfolding load_each count_each execute_many
  load_each_lem n family st [] = (refl, refl, refl)
  load_each_lem n family st (row ∷ rows) = ground (
    arith,
    counted-load_row n family st row,
    load_each_lem n family (load_row strptime n family st row).0 rows,
  )

  -- Where the loop reads the file to its end, the batches of `load_rows` leave the numbers that
  -- writing each row at once leaves, however many rows a batch has; and it fails on the same rows.
  pub load_rows-count_each :
      (n : ℕ) (family : Family) (s : ElectionStage) (source : List Row)
      → ((load_rows strptime n family s source).1
          ≡ (count_each family s.reader s.db.counts source).2)
        × ((load_rows strptime n family s source).0.reader
            ≡ (count_each family s.reader s.db.counts source).0)
        × ((load_rows strptime n family s source).1 ≡ ok tt
            → (load_rows strptime n family s source).0.db.counts
              ≡ (count_each family s.reader s.db.counts source).1)
  unfolding load_rows flush execute_many
  load_rows-count_each n family s source = ground (
    arith,
    load_each_lem n family (record { reader = s.reader; db = s.db; candidates = []; batch = [] })
        source,
  )
