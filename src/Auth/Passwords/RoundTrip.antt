-- ===== src/Auth/Passwords/RoundTrip.antt =====
-- A hash that hash_password writes is one that verify_password reads.
use agentless_monitoring.Common.{
  ℕ, suc, ◌^◌, ◌<◌, ◌≤◌, ◌≡◌, ◌≢◌, refl, ap, ◌∙◌, true, false, List, [], ◌∷◌, ◌++◌, append_assoc,
  none, some, Bytes, codes, itoa, split, join, starts_with, strip_prefix, ok, ◌>>=◌, ◌==◌, length,
  All, All-append, arith, bytes_discrete,
}
use agentless_monitoring.Common.Base64.{
  IsByte, raw_std_encode, raw_std_decode-encode, raw_std_encode-no_dollar,
}
use agentless_monitoring.Common.Decimal.{parse_uint, parse_uint-itoa, itoa-IsDigit}
use agentless_monitoring.Common.Splitting.{IsWithout, All-imp, split-join}
use agentless_monitoring.Net.{bytes_eq}
use agentless_monitoring.Auth.Passwords.{
  PasswordParams, PasswordError, invalid_salt, invalid_key, parse_uint_parameter, parse_parameters,
  decode_field, format_hash, hash_password, verify_password, maximum_hash_memory, maximum_hash_time,
  maximum_hash_threads,
}

-- What verify_password asks of the parameters that it reads.
pub record IsAllowed (params : PasswordParams) : Type 0 where
  pub memory : (0 < params.memory) × (params.memory ≤ maximum_hash_memory)
  pub time : (0 < params.time) × (params.time ≤ maximum_hash_time)
  pub threads : (0 < params.threads) × (params.threads ≤ maximum_hash_threads)
  pub salt_len : (8 ≤ params.salt_len) × (params.salt_len ≤ 64)
  pub key_len : (16 ≤ params.key_len) × (params.key_len ≤ 64)

-- argon2.IDKey gives as many bytes as it is asked for.
abbrev pub HasKeyLength : (Bytes → Bytes → ℕ → ℕ → ℕ → ℕ → Bytes) → Type 0
HasKeyLength id_key =
    (password salt : Bytes) (time memory threads n : ℕ)
    → (length (id_key password salt time memory threads n) ≡ n)
      × All IsByte (id_key password salt time memory threads n)

digits-IsWithout : (sep n : ℕ) → sep < 48 → IsWithout sep (itoa n)
digits-IsWithout sep n h = All-imp (itoa n) (λ c d. omega arith) (itoa-IsDigit n)

==_refl : (n : ℕ) → (n == n) ≡ true
==_refl n = ground arith

longer : (n : ℕ) → (suc (suc (suc n)) == 2) ≡ false
longer n = ground arith

strip_prefix_self : (a b : ℕ) (s : Bytes) → strip_prefix (a ∷ b ∷ []) (a ∷ b ∷ s) ≡ some s
unfolding strip_prefix
strip_prefix_self a b s = rw (==_refl a, ==_refl b) refl

starts_with_self : (a b : ℕ) (s : Bytes) → starts_with (a ∷ b ∷ s) (a ∷ b ∷ []) ≡ true
unfolding starts_with strip_prefix
starts_with_self a b s = ap (λ o. elim o [ none ↦ false | some _ ↦ true ]) (strip_prefix_self a b s)

parameter-digits :
    (a b bound n : ℕ) (s : Bytes)
    → parse_uint bound s ≡ some n
    → parse_uint_parameter (a ∷ b ∷ s) (a ∷ b ∷ []) bound ≡ some n
unfolding parse_uint_parameter strip_prefix starts_with
parameter-digits a b bound n [] h = absurd (ground arith)
parameter-digits a b bound n (c ∷ s) h =
    rw (starts_with_self a b (c ∷ s), longer (length s), ==_refl a, ==_refl b) h

parameter-itoa :
    (a b bound n : ℕ)
    → 0 < n
    → n < bound
    → parse_uint_parameter (a ∷ b ∷ itoa n) (a ∷ b ∷ []) bound ≡ some n
parameter-itoa a b bound n p h = parameter-digits a b bound n (itoa n) (parse_uint-itoa bound n p h)

prefixed-IsWithout : (sep a n : ℕ) → sep < 48 → a ≢ sep → IsWithout sep (a ∷ 61 ∷ itoa n)
prefixed-IsWithout sep a n h ne = (ne, (omega arith, digits-IsWithout sep n h))

parameters_of : PasswordParams → List Bytes
parameters_of params =
    (codes "m=" ++ itoa params.memory)
    ∷ (codes "t=" ++ itoa params.time)
    ∷ (codes "p=" ++ itoa params.threads)
    ∷ []

join-parameters :
    (params : PasswordParams) (rest : Bytes)
    → join (44 ∷ []) (parameters_of params) ++ rest
      ≡ codes "m="
        ++ itoa params.memory
        ++ codes ",t="
        ++ itoa params.time
        ++ codes ",p="
        ++ itoa params.threads
        ++ rest
unfolding join parameters_of
join-parameters params rest = simp append_assoc

split-parameters :
    (params : PasswordParams)
    → split 44 (join (44 ∷ []) (parameters_of params)) ≡ parameters_of params
unfolding parameters_of
split-parameters params =
    split-join 44 (codes "m=" ++ itoa params.memory)
      ((codes "t=" ++ itoa params.time) ∷ (codes "p=" ++ itoa params.threads) ∷ [])
      (
        prefixed-IsWithout 44 109 params.memory (omega arith) (omega arith),
        (
          prefixed-IsWithout 44 116 params.time (omega arith) (omega arith),
          (prefixed-IsWithout 44 112 params.threads (omega arith) (omega arith), tt),
        ),
      )

parse_parameters-of :
    (params : PasswordParams)
    → IsAllowed params
    → parse_parameters (join (44 ∷ []) (parameters_of params))
      ≡ ok (params.memory, params.time, params.threads)
unfolding parse_parameters parameters_of
parse_parameters-of params h =
    rw
      (
        split-parameters params,
        parameter-itoa 109 61 (2 ^ 32) params.memory h.memory.0 (omega (arith, h.memory.1)),
        parameter-itoa 116 61 (2 ^ 32) params.time h.time.0 (omega (arith, h.time.1)),
        parameter-itoa 112 61 (2 ^ 8) params.threads h.threads.0 (omega (arith, h.threads.1)),
      )
      (ground (arith, h.memory, h.time, h.threads))

decode_field-encode :
    (s : Bytes) (low high : ℕ) (why : PasswordError)
    → All IsByte s
    → low ≤ length s
    → length s ≤ high
    → decode_field (raw_std_encode s) low high why ≡ ok s
unfolding decode_field
decode_field-encode s low high why bytes l h = ground (arith, raw_std_decode-encode s bytes)

parts_of : ℕ → Bytes → Bytes → PasswordParams → List Bytes
unfolding parameters_of
parts_of version salt key params =
    codes "argon2id"
    ∷ (codes "v=" ++ itoa version)
    ∷ join (44 ∷ []) (parameters_of params)
    ∷ raw_std_encode salt
    ∷ raw_std_encode key
    ∷ []

format_hash-join :
    (id_key : Bytes → Bytes → ℕ → ℕ → ℕ → ℕ → Bytes) (version : ℕ) (salt key : Bytes)
    (params : PasswordParams)
    → format_hash id_key version salt key params
      ≡ join (36 ∷ []) ([] ∷ parts_of version salt key params)
unfolding format_hash join parts_of parameters_of
format_hash-join id_key version salt key params = simp append_assoc

parameters_text-IsWithout :
    (params : PasswordParams) → IsWithout 36 (join (44 ∷ []) (parameters_of params))
unfolding join parameters_of
parameters_text-IsWithout params =
    All-append _ (codes "m=" ++ itoa params.memory ++ codes ",") _
      (All-append _ (codes "m=" ++ itoa params.memory) (codes ",")
        (prefixed-IsWithout 36 109 params.memory (omega arith) (omega arith)) (omega arith, tt))
      (All-append _ (codes "t=" ++ itoa params.time ++ codes ",") _
        (All-append _ (codes "t=" ++ itoa params.time) (codes ",")
          (prefixed-IsWithout 36 116 params.time (omega arith) (omega arith)) (omega arith, tt))
        (prefixed-IsWithout 36 112 params.threads (omega arith) (omega arith)))

module _ (version : ℕ) (salt key : Bytes) (params : PasswordParams) where
  algorithm-IsWithout : IsWithout 36 (codes "argon2id")
  algorithm-IsWithout = ground arith

  split-format_hash :
      (id_key : Bytes → Bytes → ℕ → ℕ → ℕ → ℕ → Bytes)
      → All IsByte salt
      → All IsByte key
      → split 36 (format_hash id_key version salt key params)
        ≡ [] ∷ parts_of version salt key params
  unfolding parts_of
  split-format_hash id_key s k =
      ap (split 36) (format_hash-join id_key version salt key params)
      ∙ split-join 36 [] (parts_of version salt key params) (
        tt,
        (
          algorithm-IsWithout,
          (
            prefixed-IsWithout 36 118 version (omega arith) (omega arith),
            (
              parameters_text-IsWithout params,
              (raw_std_encode-no_dollar salt s, (raw_std_encode-no_dollar key k, tt)),
            ),
          ),
        ),
      )

-- A password is accepted against the hash that hash_password wrote for another one if and only if
-- argon2 derives the same key from both, with the salt and the parameters of that hash: for a
-- version that fits a byte and is not zero, parameters within the limits, and a salt of the length
-- that the parameters say.
pub verify_password-hash_password :
    (id_key : Bytes → Bytes → ℕ → ℕ → ℕ → ℕ → Bytes) (version : ℕ) (salt p q : Bytes)
    (params : PasswordParams)
    → HasKeyLength id_key
    → 0 < version
    → version < 256
    → IsAllowed params
    → length salt ≡ params.salt_len
    → All IsByte salt
    → (hash_password id_key version (some salt) p params >>= verify_password id_key version q)
      ≡ ok (
          bytes_eq
            (id_key q salt params.time params.memory params.threads params.key_len)
            (id_key p salt params.time params.memory params.threads params.key_len))
unfolding hash_password verify_password parts_of bytes_discrete
verify_password-hash_password id_key version salt p q params keys v w allowed n bytes =
    let key = id_key p salt params.time params.memory params.threads params.key_len in
    let (key_len, key_bytes) =
      keys p salt params.time params.memory params.threads params.key_len in
    rw
      (
        split-format_hash version salt key params id_key bytes key_bytes,
        parameter-itoa 118 61 (2 ^ 8) version v w,
        ==_refl version,
        parse_parameters-of params allowed,
        decode_field-encode salt 8 64 invalid_salt bytes (omega (arith, n, allowed.salt_len.0))
            (omega (arith, n, allowed.salt_len.1)),
        decode_field-encode key 16 64 invalid_key key_bytes
            (omega (arith, key_len, allowed.key_len.0)) (omega (arith, key_len, allowed.key_len.1)),
        key_len,
      )
      refl
