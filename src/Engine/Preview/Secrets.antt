-- ===== src/Engine/Preview/Secrets.antt =====
-- `redact_preview` of engine.rs at payloads that differ in their secrets only.
use z8run.Base.{List, ℕ, ◌≡◌, refl, ap, String, Bool, true, if◌then◌else◌}
use z8run.Json.{
  Value, null, bool, number, string, array, object, Items, no_items, item, Fields, no_fields, entry,
}
use z8run.Engine.Preview.{
  is_sensitive_key, redact_preview, redact_items, redact_fields, truncate_payload,
  truncate_redacted,
}

-- Two payloads that differ only in what stands under sensitive keys, at any depth, and in what
-- `mask` removes from texts.
module _ (mask : String → String) where
  mutual
    pub data Agree : Value → Value → Type 0 where
      null_agree : Agree null null
      bool_agree : (b : Bool) → Agree (bool b) (bool b)
      number_agree : (n : ℕ) → Agree (number n) (number n)
      string_agree : (s t : String) → mask s ≡ mask t → Agree (string s) (string t)
      array_agree : {a b : Items} → ItemsAgree a b → Agree (array a) (array b)
      object_agree : {a b : Fields} → FieldsAgree a b → Agree (object a) (object b)

    pub data ItemsAgree : Items → Items → Type 0 where
      no_items_agree : ItemsAgree no_items no_items
      item_agree :
          {v w : Value} {a b : Items}
          → Agree v w
          → ItemsAgree a b
          → ItemsAgree (item v a) (item w b)

    pub data FieldsAgree : Fields → Fields → Type 0 where
      no_fields_agree : FieldsAgree no_fields no_fields
      secret_agree :
          (k : String) (v w : Value) {a b : Fields}
          → is_sensitive_key k ≡ true
          → FieldsAgree a b
          → FieldsAgree (entry k v a) (entry k w b)
      entry_agree :
          (k : String) {v w : Value} {a b : Fields}
          → Agree v w
          → FieldsAgree a b
          → FieldsAgree (entry k v a) (entry k w b)

  mutual
    unfolding redact_preview redact_items redact_fields

    redact-Agree : {v w : Value} → Agree v w → redact_preview mask v ≡ redact_preview mask w
    redact-Agree null_agree = refl
    redact-Agree (bool_agree b) = refl
    redact-Agree (number_agree n) = refl
    redact-Agree (string_agree s t e) = ap string e
    redact-Agree (array_agree h) = ap array (redact-ItemsAgree h)
    redact-Agree (object_agree h) = ap object (redact-FieldsAgree h)

    redact-ItemsAgree : {a b : Items} → ItemsAgree a b → redact_items mask a ≡ redact_items mask b
    redact-ItemsAgree no_items_agree = refl
    redact-ItemsAgree (item_agree h t) = λ i. item (redact-Agree h i) (redact-ItemsAgree t i)

    redact-FieldsAgree :
        {a b : Fields} → FieldsAgree a b → redact_fields mask a ≡ redact_fields mask b
    redact-FieldsAgree no_fields_agree = refl
    redact-FieldsAgree (secret_agree k v w s t) =
        rw s (ap (entry k (string "[REDACTED]")) (redact-FieldsAgree t))
    redact-FieldsAgree (entry_agree k h t) = λ i.
        entry k (if is_sensitive_key k then string "[REDACTED]" else redact-Agree h i)
          (redact-FieldsAgree t i)

  -- Payloads that differ only under sensitive keys, at any depth, and in what the masks remove from
  -- texts have the same preview.
  pub preview_hides :
      (bytes : Value → List ℕ) (text : List ℕ → String) (more : ℕ → String) {v w : Value}
      → Agree v w
      → truncate_payload bytes text more mask v ≡ truncate_payload bytes text more mask w
  unfolding truncate_payload
  preview_hides bytes text more h = ap (truncate_redacted bytes text more) (redact-Agree h)
