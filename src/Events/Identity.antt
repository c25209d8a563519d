-- ===== src/Events/Identity.antt =====
-- What the preimage of an event's identifier determines.
use hivra_app.Prelude.{
  ℕ, zero, suc, ◌≡◌, ◌⊎◌, ◌<◌, ◌^◌, refl, sym, ◌∙◌, ap, ◌∷◌, ◌++◌, arith, length, append-cancel,
}
use hivra_app.Primitives.{Bytes, IsArray}
use hivra_app.Events.{
  EventKind, Event, event_kind_byte, be_bytes, u64_be_bytes, event_preimage, protocol_version,
  continuous_ledger_protocol_version, v5_domain_event_tag,
}

be_digits-injective : (x y : ℕ) → x < 2 ^ 64 → y < 2 ^ 64 → u64_be_bytes x ≡ u64_be_bytes y → x ≡ y
unfolding be_bytes
be_digits-injective x y hx hy e = ground arith

event_kind_byte-injective : (j k : EventKind) → event_kind_byte j ≡ event_kind_byte k → j ≡ k
unfolding event_kind_byte
event_kind_byte-injective j k e = ground arith

length-be_bytes : (n x : ℕ) → length (be_bytes n x) ≡ n
unfolding be_bytes
length-be_bytes zero x = refl
length-be_bytes (suc n) x = ap suc (length-be_bytes n x)

-- What the fields that identify an event may hold.
pub record EventFits (e : Event) : Type 0 where
  pub version_known :
      (e.version ≡ protocol_version) ⊎ (e.version ≡ continuous_ledger_protocol_version)
  pub payload_fits : length e.payload < 2 ^ 64
  pub timestamp_fits : e.timestamp < 2 ^ 64
  pub signer_fits : IsArray 32 e.signer

preimage_v4 :
    (e : Event) → e.version ≡ 4 → event_preimage e ≡ e.version ∷ event_kind_byte e.kind ∷ e.payload
unfolding event_preimage
preimage_v4 e h = ground arith

abbrev v5_tail : Event → Bytes
v5_tail e = u64_be_bytes (length e.payload) ++ (e.payload ++ (u64_be_bytes e.timestamp ++ e.signer))

preimage_v5 :
    (e : Event)
    → e.version ≡ 5
    → event_preimage e ≡ v5_domain_event_tag ++ (e.version ∷ event_kind_byte e.kind ∷ v5_tail e)
unfolding event_preimage
preimage_v5 e h = ground arith

v5_tail-injective :
    (d e : Event)
    → EventFits d
    → EventFits e
    → v5_tail d ≡ v5_tail e
    → (d.payload ≡ e.payload) × (d.timestamp ≡ e.timestamp) × (d.signer ≡ e.signer)
v5_tail-injective d e hd he q =
    let (sizes, rest) =
      append-cancel (u64_be_bytes (length d.payload)) (u64_be_bytes (length e.payload)) _ _
        (length-be_bytes 8 _ ∙ sym (length-be_bytes 8 _)) q in
    let (payloads, rest') =
      append-cancel d.payload e.payload _ _
        (be_digits-injective _ _ hd.payload_fits he.payload_fits sizes) rest in
    let (times, signers) =
      append-cancel (u64_be_bytes d.timestamp) (u64_be_bytes e.timestamp) _ _
        (length-be_bytes 8 _ ∙ sym (length-be_bytes 8 _)) rest' in
    (payloads, be_digits-injective _ _ hd.timestamp_fits he.timestamp_fits times, signers)

-- The bytes that `event_id` hashes determine the version, kind and payload of an event of protocol
-- 4 or 5, and for protocol 5 its timestamp and signer too; so events of the two protocols never
-- hash the same bytes.
pub event_preimage-injective :
    (d e : Event)
    → EventFits d
    → EventFits e
    → event_preimage d ≡ event_preimage e
    → (d.version ≡ e.version)
      × (d.kind ≡ e.kind)
      × (d.payload ≡ e.payload)
      × (d.version ≡ continuous_ledger_protocol_version
          → (d.timestamp ≡ e.timestamp) × (d.signer ≡ e.signer))
event_preimage-injective d e hd he q = ground (
  arith,
  preimage_v4 d,
  preimage_v4 e,
  preimage_v5 d,
  preimage_v5 e,
  event_kind_byte-injective d.kind e.kind,
  v5_tail-injective d e hd he,
)
