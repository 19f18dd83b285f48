-- ===== src/Result/Frames.antt =====
-- `odbc_result::fetch` as a whole: the types and the names of the columns, and the rows.
pub mod Whole
use odbc.Prelude.{
  ℕ, zero, suc, ◌+◌, ◌<◌, ◌≡◌, refl, ◌∙◌, ap, Bool, true, false, not, Option, some, List, [], ◌∷◌,
  take, drop, length, ◌==◌, if◌then◌else◌, subst,
}
use odbc.Prelude.Int.{ℤ}
use odbc.Outcome.{M, Outcome, ok, pure, ◌>>=◌, ◌>>◌, try_catch, Sat}
use odbc.Outcome.Returns.{
  Returns, Finds, bind-Returns, bind-Finds, found, catch-Returns, if-Returns, pure-Returns,
  Returns-Sat,
}
use odbc.Nanodbc.{Nanodbc, Rows, Reply, done, Text}
use odbc.Session.{Session, Object, answer, call, object_at, deref, notify, Notice}
use odbc.Connection.{get_data_any_order}
use odbc.Types.{RType, BigintMap, SqlType, column_type, reader}
use odbc.Types.Agreement.{column_type-written}
use odbc.Fetch.{Cursor}
use odbc.Fetch.Contract.{Contract, View}
use odbc.Fetch.Room.{AllReadable}
use odbc.Result.Unbind.{unbound_here, unbind_from, unbind_columns, unbind_if_needed}
use odbc.Result.Fetches.{Headers, signal_unknown, column_types, column_names}

-- What nanodbc documents of a result's columns and of their buffers: each call is answered and moves
-- no cursor.
pub record Described {D : Type 0} (drv : Nanodbc D) {rows : Rows D} {r : ℕ} {R : Type 0}
    (headers : Headers D) (k : Contract rows r R) : Type 0 where
  pub type_at : ℕ → SqlType
  pub name_at : ℕ → Text
  pub shown : Text → Text
  pub dbms : Text
  pub driver : Text
  pub column_datatype_done :
      (i : ℕ) (d : D)
      → ((headers.column_datatype r i d).0 ≡ done (type_at i))
        × (k.view (headers.column_datatype r i d).1 ≡ k.view d)
  pub column_name_done :
      (i : ℕ) (d : D)
      → ((headers.column_name r i d).0 ≡ done (name_at i))
        × (k.view (headers.column_name r i d).1 ≡ k.view d)
  pub make_string_done :
      (s : Text) (d : D)
      → ((headers.make_string s d).0 ≡ done (shown s))
        × (k.view (headers.make_string s d).1 ≡ k.view d)
  pub dbms_name_done :
      (d : D) → ((drv.dbms_name d).0 ≡ done dbms) × (k.view (drv.dbms_name d).1 ≡ k.view d)
  pub driver_name_done :
      (d : D) → ((drv.driver_name d).0 ≡ done driver) × (k.view (drv.driver_name d).1 ≡ k.view d)
  pub is_bound_done :
      (i : ℕ) (d : D)
      → (b : Bool) × ((drv.is_bound r i d).0 ≡ done b) × (k.view (drv.is_bound r i d).1 ≡ k.view d)
  pub unbind_done :
      (i : ℕ) (d : D) → ((drv.unbind r i d).0 ≡ done tt) × (k.view (drv.unbind r i d).1 ≡ k.view d)

module _ {D : Type 0} {drv : Nanodbc D} {rows : Rows D} {r : ℕ} {R : Type 0} {headers : Headers D}
    {k : Contract rows r R} (h : Described drv headers k) (mapping : BigintMap) where
  -- The types of so many columns from `i` on.
  abbrev pub types_from : ℕ → ℕ → List RType
  types_from zero i = []
  types_from (suc n) i = (column_type mapping (h.type_at i)).0 ∷ types_from n (i + 1)

  abbrev pub names_from : ℕ → ℕ → List Text
  names_from zero i = []
  names_from (suc n) i = h.shown (h.name_at i) ∷ names_from n (i + 1)

  pub types-AllReadable : (n i : ℕ) → AllReadable (types_from n i)
  types-AllReadable zero i = tt
  types-AllReadable (suc n) i =
      let (f, e, _) = column_type-written mapping (h.type_at i) in
      ((f, e), types-AllReadable n (i + 1))

module _ {D : Type 0} {drv : Nanodbc D} {rows : Rows D} {r : ℕ} {R : Type 0} {headers : Headers D}
    {k : Contract rows r R} (h : Described drv headers k) (mapping : BigintMap) (v : View R)
    (os : ℕ → Option Object) where
  -- The cursor and the results are as these.
  pub record At (s : Session D) : Type 0 where
    pub same_view : k.view s.driver ≡ v
    pub same_objects : s.objects ≡ os

  called :
      (s : Session D) {A : Type 0} (a : A) (x : Reply A × D)
      → At s
      → x.0 ≡ done a
      → k.view x.1 ≡ k.view s.driver
      → (s' : Session D) × (answer s x ≡ (ok a, s')) × At s'
  called s a x p e same = (
    record s { driver = x.1 },
    rw e refl,
    record { same_view = same ∙ p.same_view; same_objects = p.same_objects },
  )

  call-Returns :
      {A : Type 0} (a : A) (f : D → Reply A × D)
      → ((d : D) → ((f d).0 ≡ done a) × (k.view (f d).1 ≡ k.view d))
      → Returns At a (call f)
  call-Returns a f g = record {
    run = λ s p. called s a (f s.driver) p (g s.driver).0 (g s.driver).1;
  }

  signal_unknown-Returns :
      (b : Bool) (i : ℕ) → Returns At tt (signal_unknown drv rows headers mapping b r i)
  unfolding signal_unknown
  signal_unknown-Returns false i = pure-Returns tt
  signal_unknown-Returns true i =
      bind-Returns (h.name_at i) _
        (call-Returns (h.name_at i) (headers.column_name r i) (h.column_name_done i))
        (record {
          run = λ s p. (_, refl, record { same_view = p.same_view; same_objects = p.same_objects });
        })

  pub column_types-Returns :
      (n i : ℕ)
      → Returns At (types_from h mapping n i) (column_types drv rows headers mapping n i r)
  unfolding column_types
  column_types-Returns zero i = pure-Returns []
  column_types-Returns (suc n) i =
      bind-Returns (h.type_at i) _
        (call-Returns (h.type_at i) (headers.column_datatype r i) (h.column_datatype_done i))
        (bind-Returns tt _ (signal_unknown-Returns (column_type mapping (h.type_at i)).1 i) (
          bind-Returns (types_from h mapping n (i + 1)) _ (column_types-Returns n (i + 1))
            (pure-Returns (types_from h mapping (suc n) i))))

  pub column_names-Returns :
      (n i : ℕ)
      → Returns At (names_from h mapping n i) (column_names drv rows headers mapping n i r)
  unfolding column_names
  column_names-Returns zero i = pure-Returns []
  column_names-Returns (suc n) i =
      bind-Returns (h.name_at i) _
        (call-Returns (h.name_at i) (headers.column_name r i) (h.column_name_done i))
        (bind-Returns (h.shown (h.name_at i)) _
          (call-Returns (h.shown (h.name_at i)) (headers.make_string (h.name_at i))
            (h.make_string_done (h.name_at i)))
          (bind-Returns (names_from h mapping n (i + 1)) _ (column_names-Returns n (i + 1))
            (pure-Returns (names_from h mapping (suc n) i))))

  get_data_any_order-Finds : Finds At (get_data_any_order drv)
  unfolding get_data_any_order
  get_data_any_order-Finds = found (
      catch-Returns _ (
        bind-Returns h.dbms _ (call-Returns h.dbms drv.dbms_name h.dbms_name_done) (
          bind-Returns h.driver _ (call-Returns h.driver drv.driver_name h.driver_name_done)
            (pure-Returns _))))

  unbound_here-Finds : (b : Bool) (i : ℕ) → Finds At (unbound_here drv b r i)
  unfolding unbound_here
  unbound_here-Finds true i = found (pure-Returns true)
  unbound_here-Finds false i = record {
    run = λ s p.
        let (b, e, same) = h.is_bound_done i s.driver in
        let (s', e', p') = called s b (drv.is_bound r i s.driver) p e same in
        (not b, s', rw e' refl, p');
  }

  unbind_from-Returns : (n i : ℕ) (b : Bool) → Returns At tt (unbind_from drv n i b r)
  unfolding unbind_from
  unbind_from-Returns zero i b = pure-Returns tt
  unbind_from-Returns (suc n) i b = bind-Finds (unbound_here-Finds b i) λ b'.
      bind-Returns tt _
        (if-Returns b' (call-Returns tt (drv.unbind r i) (h.unbind_done i)) (pure-Returns tt))
        (unbind_from-Returns n (i + 1) b')

  module _ (this : ℕ) (o : Object) (live : os this ≡ some o) where
    pub object_at-Returns : Returns At o (object_at this)
    object_at-Returns = record { run = λ s p. (s, rw (p.same_objects, live) refl, p) }

    module _ (executed : o.result ≡ some r) where
      pub result-Returns : Returns At r (deref o.result)
      result-Returns = rw executed (pure-Returns r)

      pub unbind_if_needed-Returns : Returns At tt (unbind_if_needed drv this)
      unfolding unbind_if_needed unbind_columns
      unbind_if_needed-Returns = bind-Finds get_data_any_order-Finds λ any.
          if-Returns any (pure-Returns tt) (
            catch-Returns _ (
              bind-Returns o _ object_at-Returns
                (bind-Returns r _ result-Returns (unbind_from-Returns o.num_columns 0 false))))
