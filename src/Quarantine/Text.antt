-- ===== src/Quarantine/Text.antt =====
-- The identifiers, hexadecimal strings and endpoint lists of the quarantine
-- (inbound_quarantine.rs).
use hivra_app.Prelude.{
  ℕ, zero, suc, ◌+◌, ◌-◌, ◌*◌, ◌/◌, ◌%◌, Bool, not, ◌&&◌, ◌||◌, Option, none, some, List, [], ◌∷◌,
  ◌++◌, Result, ok, err, ltb, leb, ◌==◌, if◌then◌else◌, length, take, any, retain, bytes_le, ◌>>◌,
  ◌>>=◌,
}
use hivra_app.Primitives.{Bytes, bytes_eq}
use hivra_app.Transport.{DeliveryEnvelope}
use hivra_app.Quarantine.{
  QuarantineError, invalid_scope, invalid_record, corrupt, max_event_id_len, max_endpoint_len,
  max_observations, Scope, StoredEnvelope, adapter_name,
}

abbrev pub in_range : ℕ → ℕ → ℕ → Bool
in_range low high b = leb low b && leb b high

abbrev pub is_ascii_hexdigit : ℕ → Bool
is_ascii_hexdigit b = in_range 48 57 b || (in_range 65 70 b || in_range 97 102 b)

abbrev pub is_ascii_alphanumeric : ℕ → Bool
is_ascii_alphanumeric b = in_range 48 57 b || (in_range 65 90 b || in_range 97 122 b)

-- `all(p)`
abbrev pub every : (ℕ → Bool) → Bytes → Bool
every p bytes = not (any (λ b. not (p b)) bytes)

unfoldable pub validate_hex32 : Bytes → Result QuarantineError (Unit {0})
validate_hex32 value =
    if not (length value == 64) || not (every is_ascii_hexdigit value)
    then err invalid_scope
    else ok tt

-- 45, 95 and 58 are `-`, `_` and `:`.
unfoldable pub validate_event_id : Bytes → Result QuarantineError (Unit {0})
validate_event_id value =
    if length value == 0
      || (ltb max_event_id_len (length value)
          || not (every (λ b. is_ascii_alphanumeric b || (b == 45 || (b == 95 || b == 58))) value))
    then err invalid_record
    else ok tt

unfoldable pub validate_scope : Scope → Result QuarantineError (Unit {0})
validate_scope scope =
    validate_hex32 scope.capsule_id
    >> (validate_hex32 scope.transport_endpoint
        >> (if ltb 1 scope.network then err invalid_scope else ok tt))

abbrev pub hex_digit : ℕ → ℕ
hex_digit n = if ltb n 10 then 48 + n else 87 + n

unfoldable pub encode_hex : Bytes → Bytes
encode_hex [] = []
encode_hex (b ∷ bytes) = hex_digit (b / 16) ∷ hex_digit (b % 16) ∷ encode_hex bytes

-- `InboundQuarantineScopeV1::for_runtime`
unfoldable pub for_runtime : Bytes → ℕ → Bytes → Scope
for_runtime capsule_id network transport_endpoint = record {
  capsule_id = encode_hex capsule_id;
  network = network;
  transport_endpoint = encode_hex transport_endpoint;
}

-- The value of a digit that `is_ascii_hexdigit` has let through.
abbrev pub hex_value : ℕ → ℕ
hex_value b = if leb 97 b then b - 87 else if leb 65 b then b - 55 else b - 48

-- The loop of `decode_hex32` over the pairs of digits.
unfoldable pub decode_pairs : Bytes → Bytes
decode_pairs [] = []
decode_pairs (a ∷ []) = []
decode_pairs (a ∷ b ∷ value) = (hex_value a * 16 + hex_value b) ∷ decode_pairs value

unfoldable pub decode_hex32 : Bytes → Result QuarantineError Bytes
decode_hex32 value = validate_hex32 value >>= λ _. ok (decode_pairs value)

-- The insertion of a string in a `BTreeSet`, as the sorted list of its members.
unfoldable pub insert_string : Bytes → List Bytes → List Bytes
insert_string s [] = s ∷ []
insert_string s (x ∷ xs) =
    if bytes_eq s x then x ∷ xs else if bytes_le s x then s ∷ x ∷ xs else x ∷ insert_string s xs

unfoldable pub collect_strings : List Bytes → List Bytes
collect_strings [] = []
collect_strings (s ∷ strings) = insert_string s (collect_strings strings)

unfoldable pub merge_observations : List Bytes → List Bytes → List Bytes
merge_observations existing incoming = take max_observations (
    collect_strings (
      retain (λ value. not (length value == 0) && leb (length value) max_endpoint_len)
        (existing ++ incoming)))

-- `chars().take(n)`: a byte from 128 to 191 goes on with the character before it.
unfoldable pub take_chars : ℕ → Bytes → Bytes
take_chars n [] = []
take_chars zero (b ∷ bytes) = if in_range 128 191 b then b ∷ take_chars zero bytes else []
take_chars (suc n) (b ∷ bytes) =
    let continued = take_chars (suc n) bytes in
    let next = take_chars n bytes in if in_range 128 191 b then b ∷ continued else b ∷ next

unfoldable pub bounded_reason : Bytes → Bytes
bounded_reason value = take_chars 96 value

-- A `u8` in decimal digits.
abbrev pub decimal : ℕ → Bytes
decimal n =
    if ltb n 10
    then (48 + n) ∷ []
    else if ltb n 100
    then (48 + n / 10) ∷ (48 + n % 10) ∷ []
    else (48 + n / 100) ∷ (48 + n / 10 % 10) ∷ (48 + n % 10) ∷ []

-- "hivra:inbound-quarantine:record:v1:"
abbrev pub record_aad_tag : Bytes
record_aad_tag =
    b'h' ∷ b'i' ∷ b'v' ∷ b'r' ∷ b'a' ∷ b':' ∷ b'i' ∷ b'n' ∷ b'b' ∷ b'o' ∷ b'u' ∷ b'n' ∷ b'd' ∷ b'-'
    ∷ b'q' ∷ b'u' ∷ b'a' ∷ b'r' ∷ b'a' ∷ b'n' ∷ b't' ∷ b'i' ∷ b'n' ∷ b'e' ∷ b':' ∷ b'r' ∷ b'e'
    ∷ b'c' ∷ b'o' ∷ b'r' ∷ b'd' ∷ b':' ∷ b'v' ∷ b'1' ∷ b':' ∷ []

-- 58 is `:`.
unfoldable pub record_associated_data : Scope → Bytes → Bytes
record_associated_data scope event_id =
    record_aad_tag
    ++ (scope.capsule_id
        ++ (58
            ∷ (decimal scope.network
                ++ (58 ∷ (scope.transport_endpoint ++ (58 ∷ (adapter_name ++ (58 ∷ event_id))))))))

-- `try_into` an array of 32 bytes.
abbrev pub as_array_32 : Bytes → Result QuarantineError Bytes
as_array_32 bytes = if length bytes == 32 then ok bytes else err corrupt

-- `.map(..).transpose()`
abbrev pub as_optional_array_32 : Option Bytes → Result QuarantineError (Option Bytes)
as_optional_array_32 none = ok none
as_optional_array_32 (some bytes) = as_array_32 bytes >>= λ array. ok (some array)

unfoldable pub into_delivery_envelope : StoredEnvelope → Result QuarantineError DeliveryEnvelope
into_delivery_envelope stored = do
  from ← as_array_32 stored.from
  to ← as_array_32 stored.to
  correlation_id ← as_optional_array_32 stored.correlation_id
  ok (record {
    schema_version = stored.schema_version;
    from = from;
    to = to;
    kind = stored.kind;
    payload = stored.payload;
    timestamp = stored.timestamp;
    correlation_id = correlation_id;
    domain_event = stored.domain_event;
  })
