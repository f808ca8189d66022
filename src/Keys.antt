-- ===== src/Keys.antt =====
-- frontend/src/lib/keys.ts: the checks on a key that the operator imports.
pub mod Import
use garage_admin_console.Base.{
  ℕ, Bool, true, false, not, ◌&&◌, ◌||◌, Option, none, some, List, [], ◌∷◌, Text, text, trim,
  starts_with, if◌then◌else◌, ltb, leb, eqb, is_empty, is_some, all, drop, length,
}

pub record ImportKeyForm : Type 0 where
  pub name : Text
  pub access_key_id : Text
  pub secret_access_key : Text

pub record ImportKeyBody : Type 0 where
  pub access_key_id : Text
  pub secret_access_key : Text
  pub name : Option Text

-- The `errors` and the `warnings` of a form.
pub record FieldMessages : Type 0 where
  pub access_key_id : Option Text
  pub secret_access_key : Option Text

pub record ImportKeyValidation : Type 0 where
  pub errors : FieldMessages
  pub warnings : FieldMessages
  pub body : Option ImportKeyBody

-- `[A-Za-z0-9._-]`
abbrev pub is_key_id_char : ℕ → Bool
is_key_id_char c =
    (leb b'A' c && leb c b'Z')
    || (leb b'a' c && leb c b'z')
    || (leb b'0' c && leb c b'9')
    || eqb c b'.'
    || eqb c b'_'
    || eqb c b'-'

-- `[\x21-\x7e]`
abbrev pub is_graphic : ℕ → Bool
is_graphic c = leb 0x21 c && leb c 0x7E

-- `[0-9a-f]`
abbrev pub is_hex : ℕ → Bool
is_hex c = (leb b'0' c && leb c b'9') || (leb b'a' c && leb c b'f')

-- `KEY_ID_RE`, `SECRET_RE`, `GARAGE_KEY_ID_RE` and `GARAGE_SECRET_RE`
abbrev matches_key_id : Text → Bool
matches_key_id s = not (is_empty s) && all is_key_id_char s

abbrev matches_secret : Text → Bool
matches_secret s = not (is_empty s) && all is_graphic s

abbrev matches_garage_key_id : Text → Bool
matches_garage_key_id s = starts_with s (text "GK") && eqb (length s) 26 && all is_hex (drop 2 s)

abbrev matches_garage_secret : Text → Bool
matches_garage_secret s = eqb (length s) 64 && all is_hex s

-- `keyIdError`
unfoldable pub key_id_error : Text → Option Text
key_id_error id =
    if is_empty id
    then some (text "アクセスキー ID を入力してください")
    else if ltb (length id) 8
    then some (text "アクセスキー ID は 8 文字以上必要です")
    else if not (matches_key_id id)
    then some (text "アクセスキー ID に使えるのは英数字と - _ . だけです")
    else none

-- `secretError`
unfoldable pub secret_error : Text → Option Text
secret_error secret =
    if is_empty secret
    then some (text "シークレットアクセスキーを入力してください")
    else if ltb (length secret) 16
    then some (text "シークレットアクセスキーは 16 文字以上必要です")
    else if not (matches_secret secret)
    then some (text "シークレットアクセスキーに使えるのは空白を除く ASCII 文字だけです")
    else none

-- The warning on a field that has no error.
abbrev warning_unless : Option Text → Bool → Text → Option Text
warning_unless (some e) ok message = none
warning_unless none ok message = if ok then none else some message

-- `validateImportKey`
unfoldable pub validate_import_key : ImportKeyForm → ImportKeyValidation
validate_import_key form =
    let id = trim form.access_key_id in
    let secret = trim form.secret_access_key in
    let id_err = key_id_error id in
    let secret_err = secret_error secret in
    let name = trim form.name in
    record {
      errors = record { access_key_id = id_err; secret_access_key = secret_err };
      warnings = record {
        access_key_id =
            warning_unless id_err (matches_garage_key_id id)
              (text "Garage が発行する形式 (GK + 16 進 24 桁) ではありません");
        secret_access_key =
            warning_unless secret_err (matches_garage_secret secret)
              (text "Garage が発行する形式 (16 進 64 桁) ではありません");
      };
      body =
          if not (is_some id_err) && not (is_some secret_err)
          then some (record {
            access_key_id = id;
            secret_access_key = secret;
            name = if is_empty name then none else some name;
          })
          else none;
    }
