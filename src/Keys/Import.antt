-- ===== src/Keys/Import.antt =====
-- Which forms give a request: `validateImportKey` of frontend/src/lib/keys.ts.
use garage_admin_console.Base.{
  ◌≤◌, ◌≡◌, ◌≢◌, ◌↔◌, true, none, [], ◌∷◌, Text, trim, map_option, arith, All, all_iff, length,
}
use garage_admin_console.Keys.{
  ImportKeyForm, is_key_id_char, is_graphic, key_id_error, secret_error, validate_import_key,
}

-- What Garage asks of an access key ID and of a secret.
abbrev pub IsKeyId : Text → Type 0
IsKeyId s = (8 ≤ length s) × All (λ c. is_key_id_char c ≡ true) s

abbrev pub IsSecret : Text → Type 0
IsSecret s = (16 ≤ length s) × All (λ c. is_graphic c ≡ true) s

key_id_error-eq-none_iff : (s : Text) → (key_id_error s ≡ none) ↔ IsKeyId s
unfolding key_id_error
key_id_error-eq-none_iff [] = ground arith
key_id_error-eq-none_iff (c ∷ s) = grind (arith, all_iff is_key_id_char (c ∷ s))

secret_error-eq-none_iff : (s : Text) → (secret_error s ≡ none) ↔ IsSecret s
unfolding secret_error
secret_error-eq-none_iff [] = ground arith
secret_error-eq-none_iff (c ∷ s) = grind (arith, all_iff is_graphic (c ∷ s))

-- A form gives a request exactly if its trimmed ID and secret are what Garage asks for, and the
-- request then has these two; there is a request exactly if neither field has an error.
pub validate_import_key-body_iff :
    (form : ImportKeyForm)
    → let v = validate_import_key form in
      ((v.body ≢ none)
        ↔ (IsKeyId (trim form.access_key_id) × IsSecret (trim form.secret_access_key)))
      × ((v.body ≢ none) ↔ ((v.errors.access_key_id ≡ none) × (v.errors.secret_access_key ≡ none)))
      × (map_option (λ b. b.access_key_id) v.body
          ≡ map_option (λ b. trim form.access_key_id) v.body)
      × (map_option (λ b. b.secret_access_key) v.body
          ≡ map_option (λ b. trim form.secret_access_key) v.body)
unfolding validate_import_key
validate_import_key-body_iff form = ground (
  arith,
  key_id_error-eq-none_iff (trim form.access_key_id),
  secret_error-eq-none_iff (trim form.secret_access_key),
)
