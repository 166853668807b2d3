-- ===== src/Config/Values.antt =====
-- The values of a JSON file and the checks on them, packages/core/src/config/config-policies.ts.
use molenkopf.Base.{
  ℕ, suc, String, ◌≡◌, refl, Bool, Option, none, some, List, [], ◌∷◌, arith, if◌then◌else◌, Result,
  ok, fail, includes, Dict, values, is_empty, trim, is_slug,
}
use Prim.Native.String
use molenkopf.Base.{decimal}

-- A parsed JSON value. No check reads what a number is.
mutual
  pub data Json : Type 0 where
    null : Json
    number : Json
    boolean : Bool → Json
    text : String → Json
    array : Elements → Json
    object : Members → Json

  pub data Elements : Type 0 where
    end_of_array : Elements
    element : Json → Elements → Elements

  pub data Members : Type 0 where
    end_of_object : Members
    property : String → Json → Members → Members

infixl 5 ◌>>=◌
abbrev pub ◌>>=◌ {ℓ κ} :
    {E : Type 0} {A : Type ℓ} {B : Type κ} → Result E A → (A → Result E B) → Result E B
ok a >>= f = f a
fail e >>= f = fail e

-- A check that passes, or the message of the error.
abbrev pub Checked : Type 0
Checked = Result {0, 0} String Unit

-- A step that gave a result gave one to the rest.
pub bind-ok {ℓ κ} :
    {E : Type 0} {A : Type ℓ} {B : Type κ} (r : Result E A) (f : A → Result E B) (b : B)
    → (r >>= f) ≡ ok b
    → (a : A) × ((r ≡ ok a) × (f a ≡ ok b))
bind-ok (ok a) f b h = (a, (refl, h))
bind-ok (fail e) f b h = absurd (ground arith)

abbrev pub elements_of : Elements → List Json
elements_of end_of_array = []
elements_of (element item items) = item ∷ elements_of items

abbrev pub members_of : Members → Dict Json
members_of end_of_object = []
members_of (property key value rest) = (key, value) ∷ members_of rest

-- `${a}${b}`
abbrev pub text_of : String → String → String
text_of a b = String.◌++◌ a b

-- `${path}[${index}]`
unfoldable pub at_index : String → ℕ → String
at_index path index = text_of path (text_of "[" (text_of (decimal index) "]"))

abbrev pub record_value : Json → String → Result String (Dict Json)
record_value (object members) path = ok (members_of members)
record_value null path = fail (text_of "expected object: " path)
record_value number path = fail (text_of "expected object: " path)
record_value (boolean b) path = fail (text_of "expected object: " path)
record_value (text t) path = fail (text_of "expected object: " path)
record_value (array items) path = fail (text_of "expected object: " path)

abbrev pub array_value : Json → String → Result String (List Json)
array_value (array items) path = ok (elements_of items)
array_value null path = fail (text_of "expected array: " path)
array_value number path = fail (text_of "expected array: " path)
array_value (boolean b) path = fail (text_of "expected array: " path)
array_value (text t) path = fail (text_of "expected array: " path)
array_value (object members) path = fail (text_of "expected array: " path)

abbrev pub boolean_value : Json → String → Result String Bool
boolean_value (boolean b) path = ok b
boolean_value null path = fail (text_of "expected boolean: " path)
boolean_value number path = fail (text_of "expected boolean: " path)
boolean_value (text t) path = fail (text_of "expected boolean: " path)
boolean_value (array items) path = fail (text_of "expected boolean: " path)
boolean_value (object members) path = fail (text_of "expected boolean: " path)

unfoldable pub string_value : Json → String → Result String String
unfolding trim
string_value (text t) path =
    if is_empty (trim t) then fail (text_of "expected string: " path) else ok (trim t)
string_value null path = fail (text_of "expected string: " path)
string_value number path = fail (text_of "expected string: " path)
string_value (boolean b) path = fail (text_of "expected string: " path)
string_value (array items) path = fail (text_of "expected string: " path)
string_value (object members) path = fail (text_of "expected string: " path)

abbrev pub checked_id : String → String → Result String String
checked_id path id = if is_slug id then ok id else fail (text_of "invalid id: " path)

unfoldable pub id_value : Json → String → Result String String
unfolding string_value is_slug
id_value value path = string_value value path >>= checked_id path

-- A value that may be missing.
abbrev pub optional {ℓ} :
    {A : Type ℓ}
    → (Json → String → Result String A)
    → Option Json
    → String
    → Result String (Option A)
optional f none path = ok none
optional f (some value) path = f value path >>= (λ a. ok (some a))

abbrev pub optional_id : Option Json → String → Result String (Option String)
optional_id value path = optional id_value value path

abbrev pub string_or_undefined : Option Json → String → Result String (Option String)
string_or_undefined value path = optional string_value value path

-- A value that must not be missing.
abbrev pub required {ℓ} :
    {A : Type ℓ} → (Json → String → Result String A) → Option Json → String → Result String A
required f none path = f null path
required f (some value) path = f value path

-- `items.map((item, index) => f(item, `${path}[${index}]`))`
unfoldable pub each_item {ℓ} :
    {A : Type ℓ}
    → (Json → String → Result String A)
    → String
    → ℕ
    → List Json
    → Result String (List A)
unfolding at_index
each_item f path index [] = ok []
each_item f path index (item ∷ items) =
    let rest = each_item f path (suc index) items in
    f item (at_index path index) >>= (λ a. rest >>= (λ others. ok (a ∷ others)))

abbrev pub duplicate_id : String → String → String
duplicate_id label value = text_of "duplicate " (text_of label (text_of " id: " value))

abbrev pub assert_unseen : List String → List String → String → Checked
assert_unseen seen [] label = ok tt
assert_unseen seen (value ∷ values) label =
    if includes seen value
    then fail (duplicate_id label value)
    else assert_unseen (value ∷ seen) values label

unfoldable pub assert_unique : List String → String → Checked
assert_unique values label = assert_unseen [] values label

abbrev pub checked_unique : String → List String → Result String (Option (List String))
checked_unique path values = assert_unique values path >>= (λ _. ok (some values))

unfoldable pub unique_strings : Option Json → String → Result String (Option (List String))
unfolding each_item assert_unique
unique_strings none path = ok none
unique_strings (some value) path =
    array_value value path
    >>= (λ items. each_item string_value path 0 items >>= checked_unique path)

abbrev pub all_ids : String → ℕ → List String → Checked
all_ids path index [] = ok tt
all_ids path index (value ∷ values) =
    id_value (text value) (at_index path index) >>= (λ _. all_ids path (suc index) values)

-- At least one text, and each of them an id.
abbrev pub checked_ids : String → Option (List String) → Result String (Option (List String))
checked_ids path none = ok none
checked_ids path (some []) = fail (text_of "empty string array: " path)
checked_ids path (some (value ∷ values)) =
    all_ids path 0 (value ∷ values) >>= (λ _. ok (some (value ∷ values)))

unfoldable pub non_empty_unique_ids : Option Json → String → Result String (Option (List String))
unfolding unique_strings id_value at_index
non_empty_unique_ids value path = unique_strings value path >>= checked_ids path
