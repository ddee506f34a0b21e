-- ===== src/Payments/Merged.antt =====
-- The metadata that an update of an order leaves.
use ko_finance.Common.{
  Text, text_eq, text_eq_iff, Json, Fields, end, field, field_of, none, some, or_else, Bool-cases,
  inl, inr, if◌then◌else◌, ◌≡◌, refl, ◌∙◌, arith,
}
use mathlib.Core.Path.{subst}
use ko_finance.Payments.OrderStatus.{set_field, merge_fields}

-- No key stands twice among the fields.
abbrev pub KeysOnce : Fields → Type 0
KeysOnce end = Unit
KeysOnce (field k v fs) = (field_of k fs ≡ none) × KeysOnce fs

field_of-set_field :
    (k j : Text) (v : Json) (fs : Fields)
    → field_of k (set_field j v fs) ≡ (if text_eq j k then some v else field_of k fs)
unfolding field_of
field_of-set_field k j v end = refl
field_of-set_field k j v (field i w fs) =
    ground (arith, field_of-set_field k j v fs, text_eq_iff i j, text_eq_iff i k, text_eq_iff j k)

-- A key has the value that is given, or else the one of before.
pub field_of-merge_fields :
    (k : Text) (fs more : Fields)
    → KeysOnce more
    → field_of k (merge_fields fs more) ≡ or_else (field_of k more) (field_of k fs)
unfolding field_of
field_of-merge_fields k fs end once = refl
field_of-merge_fields k fs (field j v more) once = elim (Bool-cases (text_eq j k)) [
  | inl e ↦
      let absent : field_of k more ≡ none =
        subst (λ (x : Text). field_of x more ≡ none) ((text_eq_iff j k).0 e) once.0 in
      field_of-merge_fields k (set_field j v fs) more once.1
      ∙ rw (absent, field_of-set_field k j v fs, e) refl
  | inr e ↦
      field_of-merge_fields k (set_field j v fs) more once.1
      ∙ rw (field_of-set_field k j v fs, e) refl
]
