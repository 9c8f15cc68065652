-- ===== src/Db/Payload.antt =====
-- JSON values, as event payloads and hashed envelopes are made of.
use company_os.Prelude.{ℕ, String, Option, none, some, Bool, List, [], ◌∷◌, if◌then◌else◌, ◌==◌}

mutual
  pub data Json : Type 0 where
    null : Json
    num : ℕ → Json
    bool : Bool → Json
    text : String → Json
    -- the ISO 8601 text of an instant
    instant : ℕ → Json
    arr : Items → Json
    obj : Fields → Json

  pub data Items : Type 0 where
    nil : Items
    cons : Json → Items → Items

  pub data Fields : Type 0 where
    end : Fields
    field : String → Json → Fields → Fields

abbrev pub fields : List (String × Json) → Fields
fields [] = end
fields ((k, v) ∷ kvs) = field k v (fields kvs)

abbrev pub texts : List String → Items
texts [] = nil
texts (s ∷ ss) = cons (text s) (texts ss)

abbrev pub option_text : Option String → Json
option_text none = null
option_text (some s) = text s

get_field : String → Fields → Option Json
get_field k end = none
get_field k (field j v fs) = if j == k then some v else get_field k fs

-- `payload.get(key)`
unfoldable pub get : String → Json → Option Json
unfolding get_field
get k (obj fs) = get_field k fs
get k _ = none

-- `payload.get(key)` where only a text will do
abbrev pub as_text : Option Json → Option String
as_text (some (text s)) = some s
as_text _ = none

abbrev pub as_number : Option Json → Option ℕ
as_number (some (num n)) = some n
as_number _ = none
