-- ===== src/Auth/Passwords.antt =====
-- internal/auth/password.go. argon2.IDKey and argon2.Version are those of golang.org/x/crypto, and so
-- parameters; the bytes that rand.Read gives are an argument, `none` if it fails. The functions of
-- encoding/base64, strconv, strings and unicode/utf8 are those of Common.
pub mod RoundTrip
use agentless_monitoring.Common.{
  ℕ, ◌+◌, ◌*◌, ◌^◌, Bool, true, false, not, ◌||◌, List, [], ◌∷◌, ◌++◌, Option, none, some, Bytes,
  codes, itoa, split, starts_with, strip_prefix, Result, ok, err, ◌>>=◌, ◌>>◌, refuse_if, or_err,
  ltb, ◌==◌, length, if◌then◌else◌,
}
use agentless_monitoring.Common.Base64.{raw_std_encode, raw_std_decode}
use agentless_monitoring.Common.Decimal.{parse_uint}
use agentless_monitoring.Common.Utf8.{valid_utf8, rune_count}
use agentless_monitoring.Net.{bytes_eq}

abbrev minimum_password_runes : ℕ
minimum_password_runes = 12

abbrev pub maximum_password_bytes : ℕ
maximum_password_bytes = 1024

abbrev pub maximum_hash_memory : ℕ
maximum_hash_memory = 256 * 1024

abbrev pub maximum_hash_time : ℕ
maximum_hash_time = 10

abbrev pub maximum_hash_threads : ℕ
maximum_hash_threads = 16

pub record PasswordParams : Type 0 where
  pub memory : ℕ
  pub time : ℕ
  pub threads : ℕ
  pub salt_len : ℕ
  pub key_len : ℕ

abbrev pub production_password_params : PasswordParams
production_password_params = record {
  memory = 64 * 1024;
  time = 3;
  threads = 4;
  salt_len = 16;
  key_len = 32;
}

-- The reason of a refusal: the first three wrap ErrInvalidPassword.
pub data PasswordError : Type 0 where
  invalid_utf8 too_few_characters too_many_bytes : PasswordError
  generate_salt : PasswordError
  unsupported_format unsupported_version invalid_parameters outside_limits : PasswordError
  invalid_salt invalid_key : PasswordError

unfoldable pub validate_new_password : Bytes → Result PasswordError (Unit {0})
validate_new_password password =
    refuse_if (not (valid_utf8 password)) invalid_utf8
    >> refuse_if (ltb (rune_count password) minimum_password_runes) too_few_characters
    >> refuse_if (ltb maximum_password_bytes (length password)) too_many_bytes

-- parseUintParameter, for a number below `bound`, two to the power of the bits.
unfoldable pub parse_uint_parameter : Bytes → Bytes → ℕ → Option ℕ
unfolding strip_prefix
parse_uint_parameter value prefix bound =
    if not (starts_with value prefix) || length value == length prefix
    then none
    else elim (strip_prefix prefix value) [ none ↦ none | some digits ↦ parse_uint bound digits ]

-- `len(parts) != 6`, with the parts after the first one.
abbrev pub six_parts : List Bytes → Option (Bytes × Bytes × Bytes × Bytes × Bytes)
six_parts (a ∷ b ∷ c ∷ d ∷ e ∷ f ∷ []) = some (b, c, d, e, f)
six_parts _ = none

abbrev pub three_parts : List Bytes → Option (Bytes × Bytes × Bytes)
three_parts (a ∷ b ∷ c ∷ []) = some (a, b, c)
three_parts _ = none

-- The memory, the time and the number of threads that a stored hash names.
unfoldable pub parse_parameters : Bytes → Result PasswordError (ℕ × ℕ × ℕ)
parse_parameters text = or_err (three_parts (split 44 text)) invalid_parameters >>= λ p.
    let (memory_text, time_text, threads_text) = p in
    or_err (parse_uint_parameter memory_text (codes "m=") (2 ^ 32)) invalid_parameters >>= λ memory.
    or_err (parse_uint_parameter time_text (codes "t=") (2 ^ 32)) invalid_parameters >>= λ time.
    or_err (parse_uint_parameter threads_text (codes "p=") (2 ^ 8)) invalid_parameters
    >>= λ threads.
        refuse_if
          (memory == 0
            || ltb maximum_hash_memory memory
            || (time == 0 || ltb maximum_hash_time time)
            || (threads == 0 || ltb maximum_hash_threads threads))
          outside_limits
        >> ok (memory, time, threads)

-- A field in Base64 that has from `low` to `high` bytes.
unfoldable pub decode_field : Bytes → ℕ → ℕ → PasswordError → Result PasswordError Bytes
decode_field text low high why = or_err (raw_std_decode text) why >>= λ s.
    refuse_if (ltb (length s) low || ltb high (length s)) why >> ok s

module _ (id_key : Bytes → Bytes → ℕ → ℕ → ℕ → ℕ → Bytes) (version : ℕ) where
  unfoldable pub format_hash : Bytes → Bytes → PasswordParams → Bytes
  format_hash salt key params =
      codes "$argon2id$v="
      ++ itoa version
      ++ codes "$m="
      ++ itoa params.memory
      ++ codes ",t="
      ++ itoa params.time
      ++ codes ",p="
      ++ itoa params.threads
      ++ codes "$"
      ++ raw_std_encode salt
      ++ codes "$"
      ++ raw_std_encode key

  -- hashPassword, with the salt of `params.salt_len` bytes that rand.Read fills.
  unfoldable pub hash_password : Option Bytes → Bytes → PasswordParams → Result PasswordError Bytes
  unfolding format_hash
  hash_password random password params = or_err random generate_salt >>= λ salt. ok (
      format_hash salt
        (id_key password salt params.time params.memory params.threads params.key_len) params)

  unfoldable pub verify_password : Bytes → Bytes → Result PasswordError Bool
  unfolding parse_parameters decode_field
  verify_password password encoded =
      or_err (six_parts (split 36 encoded)) unsupported_format >>= λ parts.
      let (algorithm, version_text, parameters, salt_text, key_text) = parts in
      refuse_if (not (bytes_eq algorithm (codes "argon2id"))) unsupported_format
      >> (or_err (parse_uint_parameter version_text (codes "v=") (2 ^ 8)) unsupported_version
          >>= λ v.
              refuse_if (not (v == version)) unsupported_version
              >> (parse_parameters parameters >>= λ p.
                  decode_field salt_text 8 64 invalid_salt >>= λ salt.
                  decode_field key_text 16 64 invalid_key >>= λ expected.
                  let (memory, time, threads) = p in
                  ok (
                    bytes_eq (id_key password salt time memory threads (length expected))
                      expected)))

unfoldable pub burn_password_attempt :
    (Bytes → Bytes → ℕ → ℕ → ℕ → ℕ → Bytes) → Bytes → PasswordParams → Bytes
burn_password_attempt id_key password params =
    id_key password (codes "invalid-user-salt") params.time params.memory params.threads
      params.key_len
