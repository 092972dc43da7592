-- ===== src/Archive/Names.antt =====
-- crates/archive-trait/src/name.rs: the names that a policy accepts.
use tar_codec.Base.{
  ℕ, Bool, true, false, not, ◌&&◌, ◌||◌, Option, none, some, List, [], ◌∷◌, Bytes, contains, ltb,
  ◌==◌,
}
use tar_codec.Text.{last}

abbrev pub NameValidator : Type 0
NameValidator = Bytes → Bool

-- `u8::is_ascii_whitespace`: space, tab, line feed, form feed, carriage return
unfoldable pub is_ascii_whitespace : ℕ → Bool
is_ascii_whitespace b = b == 0x20 || b == 0x09 || b == 0x0a || b == 0x0c || b == 0x0d

-- `u8::is_ascii_control`
unfoldable pub is_ascii_control : ℕ → Bool
is_ascii_control b = ltb b 0x20 || b == 0x7f

abbrev first : Bytes → Option ℕ
first [] = none
first (b ∷ bs) = some b

abbrev pub is_some_and {ℓ} : {A : Type ℓ} → (A → Bool) → Option A → Bool
is_some_and p none = false
is_some_and p (some a) = p a

abbrev pub any {ℓ} : {A : Type ℓ} → (A → Bool) → List A → Bool
any p [] = false
any p (x ∷ xs) = p x || any p xs

unfoldable pub default_name_validator : NameValidator
unfolding is_ascii_whitespace is_ascii_control
default_name_validator bytes =
    not (is_some_and is_ascii_whitespace (first bytes))
    && not (is_some_and is_ascii_whitespace (last bytes))
    && not (any is_ascii_control bytes)
    && not (contains b':' bytes)

pub data NameValidation : Type 0 where
  default : NameValidation
  disabled : NameValidation
  custom : NameValidator → NameValidation

unfoldable pub from_validator : Option NameValidator → NameValidation
from_validator (some validator) = NameValidation.custom validator
from_validator none = NameValidation.disabled

unfoldable pub accepts : NameValidation → Bytes → Bool
unfolding default_name_validator
accepts NameValidation.default name = default_name_validator name
accepts NameValidation.disabled name = true
accepts (NameValidation.custom validator) name = validator name
