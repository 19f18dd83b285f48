-- ===== src/Entry/Counts.antt =====
-- The number of rows that `result_rows_affected` reports, as an `int`.
use odbc.Prelude.{ℕ, zero, suc, ◌-◌, ◌^◌, ◌<◌, ◌≡◌, refl, ap, some, ltb, if◌then◌else◌, arith}
use odbc.Prelude.Int.{ℤ, pos_part, pos, negsuc}
use odbc.Outcome.{ok}
use odbc.Nanodbc.{Nanodbc, done}
use odbc.Session.{Object}
use odbc.Entry.Results.{ResultHandle, through_result, result_rows_affected, as_int}

-- A count of rows as R sees it: none where the driver does not know it, and a negative number from
-- 2^31 rows on.
abbrev pub seen : ℤ → ℤ
seen (negsuc n) = pos 0
seen (pos n) = if ltb n (2 ^ 31) then pos n else negsuc (2 ^ 32 - 1 - n)

as_int-seen : (n : ℕ) → n < 2 ^ 32 → as_int (pos n) ≡ seen (pos n)
as_int-seen n h = ground (arith, h)

module _ {D : Type 0} (drv : Nanodbc D) where
  -- Where the driver answers with a count of less than 2^32 rows, or with a negative number,
  -- `result_rows_affected` of an executed result returns the count if it is less than 2^31, and 0 for a
  -- negative one; a count from 2^31 on is returned as a negative number. The results stay as they are.
  pub result_rows_affected-seen :
      (p : ResultHandle D) (this r : ℕ) (n : ℤ) (o : Object)
      → p.address ≡ some this
      → p.session.objects this ≡ some o
      → o.result ≡ some r
      → ((d : D) → (drv.affected_rows r d).0 ≡ done n)
      → pos_part n < 2 ^ 32
      → ((result_rows_affected drv p).0 ≡ ok (seen n))
        × ((result_rows_affected drv p).1.session.objects ≡ p.session.objects)
  unfolding result_rows_affected through_result
  result_rows_affected-seen p this r (negsuc n) o a live executed count small =
      rw (a, live, executed, count p.session.driver) (refl, refl)
  result_rows_affected-seen p this r (pos zero) o a live executed count small =
      rw (a, live, executed, count p.session.driver) (refl, refl)
  result_rows_affected-seen p this r (pos (suc n)) o a live executed count small =
      rw (a, live, executed, count p.session.driver, count (drv.affected_rows r p.session.driver).1)
        (ap ok (as_int-seen (suc n) small), refl)
