-- ===== src/Json.antt =====
-- What `JSON.parse` gives, as code reads a value of type `unknown`. A property that is absent
-- (`undefined`) is `none`; only an object's own properties are looked up.
use crypto_edge_ai.Common.{String, Bool, Option, none, some, if◌then◌else◌, str_eq}
use crypto_edge_ai.Number.{Number}

module _ (n : Number) where
  open n use {Num}

  mutual
    pub data Fields : Type 0 where
      end : Fields
      field : (name : String) (value : Value) → Fields → Fields

    pub data Items : Type 0 where
      nil : Items
      cons : (item : Value) → Items → Items

    pub data Value : Type 0 where
      null : Value
      bool : Bool → Value
      num : Num → Value
      str : String → Value
      obj : (fields : Fields) → Value
      arr : (items : Items) → Value

module _ {n : Number} where
  -- `object[key]`.
  unfoldable pub property : String → Fields n → Option (Value n)
  property key end = none
  property key (field k v rest) = if str_eq k key then some v else property key rest

  -- `Object.values(object)[0]`.
  abbrev pub first_value : Fields n → Option (Value n)
  first_value end = none
  first_value (field k v rest) = some v

  -- `isRecord`: an object that is neither `null` nor an array.
  abbrev pub as_record : Option (Value n) → Option (Fields n)
  as_record (some (obj fields)) = some fields
  as_record (some null) = none
  as_record (some (bool _)) = none
  as_record (some (num _)) = none
  as_record (some (str _)) = none
  as_record (some (arr _)) = none
  as_record none = none

  -- `a ?? b`.
  abbrev pub coalesce : Option (Value n) → Option (Value n) → Option (Value n)
  coalesce none other = other
  coalesce (some null) other = other
  coalesce (some v) other = some v
