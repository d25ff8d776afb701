-- ===== src/Format/Data.antt =====
-- format/format.go: the data that is printed, and the choice of a printer.
use primordium.Base.{◌≢◌, Bool, Bytes, codes, bytes_eq, List, [], ◌∷◌, if◌then◌else◌}
use primordium.Errors.{Error, sentinel, Result, ok, err, wrap}

-- A Go value behind `any`, as far as the console and Markdown printers tell one from another: a
-- string, a map from strings, a slice of `any`, or a value of another type, of which they print only the
-- text of `%v`. The order of a map's fields is one in which `range` may visit them; its keys differ.
mutual
  pub data Value : Type 0 where
    str : Bytes → Value
    other : Bytes → Value
    map_of : Fields → Value
    slice_of : Items → Value

  pub data Items : Type 0 where
    nil : Items
    cons : Value → Items → Items

  pub data Fields : Type 0 where
    end : Fields
    field : Bytes → Value → Fields → Fields

-- `Data`. `PrintAll` takes pointers; they are not nil here, and on a nil one it would panic.
pub record Entry : Type 0 where
  pub object : Bytes
  pub meta : Fields

-- `len(m) > 0`
abbrev pub is_empty : Fields → Bool
is_empty end = Bool.true
is_empty (field k v m) = Bool.false

-- The formatters that `GetFormatter` knows.
pub data Formatter : Type 0 where
  json markdown console : Formatter

abbrev pub err_unknown_format : Error
err_unknown_format = sentinel 40

unfoldable pub get_formatter : Bytes → Result Formatter
get_formatter name =
    if bytes_eq name (codes "json")
    then ok json
    else if bytes_eq name (codes "markdown")
    then ok markdown
    else if bytes_eq name (codes "console")
    then ok console
    else err (wrap err_unknown_format)

-- The same data, with the fields of any map, at any depth, in another order. Two fields of a map
-- that change places have different keys.
mutual
  pub data SameValue : Value → Value → Type 0 where
    same_str : (s : Bytes) → SameValue (str s) (str s)
    same_other : (s : Bytes) → SameValue (other s) (other s)
    same_map : {m n : Fields} → SameFields m n → SameValue (map_of m) (map_of n)
    same_slice : {xs ys : Items} → SameItems xs ys → SameValue (slice_of xs) (slice_of ys)

  pub data SameItems : Items → Items → Type 0 where
    same_nil : SameItems nil nil
    same_cons :
        {v w : Value} {xs ys : Items}
        → SameValue v w
        → SameItems xs ys
        → SameItems (cons v xs) (cons w ys)

  pub data SameFields : Fields → Fields → Type 0 where
    same_end : SameFields end end
    same_field :
        (k : Bytes) {v w : Value} {m n : Fields}
        → SameValue v w
        → SameFields m n
        → SameFields (field k v m) (field k w n)
    same_swap :
        (j k : Bytes) (v w : Value) (m : Fields)
        → j ≢ k
        → SameFields (field j v (field k w m)) (field k w (field j v m))
    same_trans : {l m n : Fields} → SameFields l m → SameFields m n → SameFields l n

pub data SameEntries : List Entry → List Entry → Type 0 where
  same_none : SameEntries [] []
  same_entry :
      (object : Bytes) {m n : Fields} {es fs : List Entry}
      → SameFields m n
      → SameEntries es fs
      → SameEntries
          (record { object = object; meta = m } ∷ es)
          (record { object = object; meta = n } ∷ fs)
