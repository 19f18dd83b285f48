-- ===== src/Entry/Listed.antt =====
-- The data frame of the drivers, against one row for each attribute of a driver.
use odbc.Prelude.{◌≡◌, refl, ◌∙◌, List, [], ◌∷◌, ◌++◌, map, append_assoc, append-nil, map-append}
use odbc.Nanodbc.{Text}
use odbc.Entry.{
  Attribute, Driver, Drivers, push_attributes, push_driver, push_drivers, list_drivers,
}

-- A row: the driver's name, and the keyword and the value of an attribute, empty where there is none.
pub record Row : Type 0 where
  pub name : Text
  pub keyword : Text
  pub value : Text

abbrev attribute_rows : Text → List Attribute → List Row
attribute_rows name [] = []
attribute_rows name (a ∷ attrs) =
    record { name = name; keyword = a.keyword; value = a.value } ∷ attribute_rows name attrs

abbrev driver_rows : Driver → List Row
driver_rows driver = elim driver.attributes [
  | [] ↦ record { name = driver.name; keyword = []; value = [] } ∷ []
  | a ∷ attrs ↦ attribute_rows driver.name (a ∷ attrs)
]

abbrev pub rows : List Driver → List Row
rows [] = []
rows (driver ∷ drivers) = driver_rows driver ++ rows drivers

-- The rows by columns.
abbrev pub columns_of : List Row → Drivers
columns_of rs = record {
  names = map (λ r. r.name) rs;
  attributes = map (λ r. r.keyword) rs;
  values = map (λ r. r.value) rs;
}

abbrev append_drivers : Drivers → List Row → Drivers
append_drivers v rs = record {
  names = v.names ++ map (λ r. r.name) rs;
  attributes = v.attributes ++ map (λ r. r.keyword) rs;
  values = v.values ++ map (λ r. r.value) rs;
}

append_drivers-append :
    (v : Drivers) (xs ys : List Row)
    → append_drivers (append_drivers v xs) ys ≡ append_drivers v (xs ++ ys)
append_drivers-append v [] ys = simp append-nil refl
append_drivers-append v (x ∷ xs) ys = simp (append_assoc, map-append) refl

push_attributes_lem :
    (name : Text) (attrs : List Attribute) (v : Drivers)
    → push_attributes name attrs v ≡ append_drivers v (attribute_rows name attrs)
unfolding push_attributes
push_attributes_lem name [] v = simp append-nil refl
push_attributes_lem name (a ∷ attrs) v = push_attributes_lem name attrs _ ∙ simp append_assoc refl

driver_lem :
    (name : Text) (attrs : List Attribute) (v : Drivers)
    → let d : Driver = record { name = name; attributes = attrs } in
      push_driver d v ≡ append_drivers v (driver_rows d)
unfolding push_driver
driver_lem name [] v = refl
driver_lem name (a ∷ attrs) v = push_attributes_lem name (a ∷ attrs) v

push_drivers_lem : (ds : List Driver) (v : Drivers) → push_drivers ds v ≡ append_drivers v (rows ds)
unfolding push_drivers
push_drivers_lem [] v = simp append-nil refl
push_drivers_lem (d ∷ ds) v =
    push_drivers_lem ds (push_driver d v)
    ∙ (rw (driver_lem d.name d.attributes v) (append_drivers-append v (driver_rows d) (rows ds)))

-- `list_drivers_` has a row for each attribute of each driver, in order, under the driver's name,
-- and one row with an empty attribute and value for a driver that has none.
pub list_drivers-rows : (ds : List Driver) → list_drivers ds ≡ columns_of (rows ds)
unfolding list_drivers
list_drivers-rows ds = push_drivers_lem ds _
