-- ===== src/Value.antt =====
-- src/common.rs: the values of columns. A `String` is the list of its bytes. An `i32` stands as the
-- number that is larger by 2^31, in the range up to 2^32: the order of `i32` is the one of numbers.
pub mod Int32
use r_universal_db.Base.{
  ℕ, Bool, true, false, not, Option, none, some, List, [], ◌∷◌, Ord, ◌==◌, ◌≺◌, nat_ord, bool_ord,
  list_ord, pull_ord, ap, ◌≡◌, if◌then◌else◌, leb,
}

abbrev pub Str : Type 0
Str = List ℕ

pub data ColType : Type 0 where
  int_type bool_type string_type : ColType

pub data ColVal : Type 0 where
  int : ℕ → ColVal
  bool : Bool → ColVal
  string : Str → ColVal

abbrev pub ColValN : Type 0
ColValN = Option ColVal

pub record PrimaryKey : Type 0 where
  pub cols : List ColVal

-- The equality that is derived for `ColVal`, and the one of `Option`.
abbrev pub same_val : ColVal → ColVal → Bool
same_val (int a) (int b) = a == b
same_val (bool a) (bool b) = a == b
same_val (string a) (string b) = a == b
same_val _ _ = false

abbrev pub same_valn : ColValN → ColValN → Bool
same_valn none none = true
same_valn (some a) (some b) = same_val a b
same_valn _ _ = false

-- The order that is derived for `ColVal`: by the variant, then by the value.
abbrev pub val_before : ColVal → ColVal → Bool
val_before (int a) (int b) = a ≺ b
val_before (int a) _ = true
val_before (bool a) (bool b) = a ≺ b
val_before (bool a) (string b) = true
val_before (string a) (string b) = a ≺ b
val_before _ _ = false

-- `lookup` and `lookup_pos` in an associative list.
unfoldable pub lookup : {K V : Type 0} ⦃o : Ord K⦄ → List (K × V) → K → Option V
lookup [] key = none
lookup ((k, v) ∷ assoc) key = if k == key then some v else lookup assoc key

-- The range of a tablet in the values of the first key column.
pub record TabletKeyRange : Type 0 where
  pub range_start : Option ColVal
  pub range_end : Option ColVal

abbrev pub from_start : Option ColVal → ColVal → Bool
from_start none range_key = true
from_start (some start_key) range_key = not (val_before range_key start_key)

abbrev pub until_end : Option ColVal → ColVal → Bool
until_end none range_key = true
until_end (some end_key) range_key = val_before range_key end_key

abbrev pub range_contains : TabletKeyRange → ColVal → Bool
range_contains range range_key =
    if from_start range.range_start range_key then until_end range.range_end range_key else false

abbrev pub contains_pkey : TabletKeyRange → PrimaryKey → Bool
contains_pkey range pkey = elim pkey.cols [
  | [] ↦ true
  | first_key ∷ rest ↦ range_contains range first_key
]

-- `col_val_cast`.
abbrev pub int_cast : ColVal → Option ℕ
int_cast (int val) = some val
int_cast _ = none

abbrev pub bool_cast : ColVal → Option Bool
bool_cast (bool val) = some val
bool_cast _ = none

abbrev pub string_cast : ColVal → Option Str
string_cast (string val) = some val
string_cast _ = none
