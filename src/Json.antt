-- ===== src/Json.antt =====
-- JSON values, and how `encoding/json` stores them in the fields of a struct: a key fits a field up
-- to the case of its (ASCII) letters, a later key overrides an earlier one, and a value of another
-- type leaves the field as it was.
use ex_gocd.Base.{ℕ, ◌+◌, Bool, ◌&&◌, [], ◌∷◌, leb, if◌then◌else◌, map}
use ex_gocd.Text.{Text, ◌==◌}
use ex_gocd.Text.Utf8.{utf8}

mutual
  pub data Json : Type 0 where
    null : Json
    bool : Bool → Json
    num : ℕ → Json
    str : Text → Json
    arr : Elems → Json
    obj : Fields → Json

  pub data Elems : Type 0 where
    nil : Elems
    cons : Json → Elems → Elems

  pub data Fields : Type 0 where
    end : Fields
    field : Text → Json → Fields → Fields

abbrev pub one : Text → Json → Fields
one k v = field k v end

-- A text field marked `omitempty`.
abbrev pub optional : Text → Text → Fields → Fields
optional k [] fs = fs
optional k (c ∷ s) fs = field k (str (utf8 (c ∷ s))) fs

-- Folds an ASCII capital to its small letter.
abbrev lower : ℕ → ℕ
lower c = if leb b'A' c && leb c b'Z' then c + 32 else c

unfoldable pub fold_eq : Text → Text → Bool
fold_eq k name = map lower k == map lower name

abbrev pub as_text : Text → Json → Text
as_text old (str s) = s
as_text old _ = old

abbrev pub as_num : ℕ → Json → ℕ
as_num old (num n) = n
as_num old _ = old

abbrev pub as_bool : Bool → Json → Bool
as_bool old (bool b) = b
as_bool old _ = old

-- The fields of an object, none if it is another value.
abbrev pub fields_of : Json → Fields
fields_of (obj fs) = fs
fields_of _ = end

-- Decodes the values of one field in the order of the object.
unfoldable pub decode_field {ℓ} : {A : Type ℓ} → (A → Json → A) → Text → A → Fields → A
decode_field read name old end = old
decode_field read name old (field k v fs) =
    decode_field read name (if fold_eq k name then read old v else old) fs

unfoldable pub text_field : Text → Fields → Text
text_field name fs = decode_field as_text name [] fs
