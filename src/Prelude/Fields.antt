-- ===== src/Prelude/Fields.antt =====
-- The body of a PATCH request: a field that was not sent, one that is null, and one with a value, as
-- `model_dump(exclude_unset=True)` of pydantic tells them apart.
use mathlib.Core.Bool.{Bool, true, false}
use mathlib.Core.Option.{Option, none, some}

pub data Field {κ} (V : Type κ) : Type κ where
  unset null : Field V
  value : V → Field V

-- `body.field`, with the default `None`.
abbrev pub field_value {ℓ} : {A : Type ℓ} → Field A → Option A
field_value unset = none
field_value null = none
field_value (value a) = some a

abbrev pub is_null {ℓ} : {A : Type ℓ} → Field A → Bool
is_null null = true
is_null _ = false

-- `setattr` of what was sent, to a column that takes no null (a null is refused before).
abbrev pub assign {ℓ} : {A : Type ℓ} → Field A → A → A
assign (value a) old = a
assign _ old = old

-- The same to a column that takes null.
abbrev pub assign_nullable {ℓ} : {A : Type ℓ} → Field A → Option A → Option A
assign_nullable unset old = old
assign_nullable null old = none
assign_nullable (value a) old = some a
