-- ===== src/Primitives.antt =====
-- core/hivra-core/src/primitives.rs: byte arrays, starter kinds, networks and slot indices.
--
-- A `u8` is a number, and an array `[u8; n]` a list of numbers; that it has `n` entries is
-- `IsArray n`. The newtypes over arrays share that type, as their bytes do.
pub mod Codes
use hivra_app.Prelude.{
  ℕ, ◌≡◌, Bool, Option, none, some, List, arith, ltb, ◌==◌, if◌then◌else◌, length, same, ℕ_discrete,
}

abbrev pub Bytes : Type 0
Bytes = List ℕ

abbrev pub IsArray : ℕ → Bytes → Type 0
IsArray n bytes = length bytes ≡ n

abbrev pub IsArray? : ℕ → Option Bytes → Type 0
IsArray? n none = Unit
IsArray? n (some bytes) = IsArray n bytes

unfoldable pub Bytes-discrete : Discrete Bytes
unfolding ℕ_discrete
Bytes-discrete = hlevel ℕ_discrete

-- `==` on byte arrays and on the newtypes over them.
abbrev pub bytes_eq : Bytes → Bytes → Bool
bytes_eq = same Bytes-discrete

unfoldable pub OptionBytes-discrete : Discrete (Option Bytes)
unfolding ℕ_discrete
OptionBytes-discrete = hlevel ℕ_discrete

abbrev pub option_eq : Option Bytes → Option Bytes → Bool
option_eq = same OptionBytes-discrete

abbrev pub PubKey : Type 0
PubKey = Bytes

abbrev pub Signature : Type 0
Signature = Bytes

abbrev pub StarterId : Type 0
StarterId = Bytes

-- A `u64` of seconds.
abbrev pub Timestamp : Type 0
Timestamp = ℕ

pub data StarterKind : Type 0 where
  juice spark seed pulse kick : StarterKind

unfoldable pub StarterKind-discrete : Discrete StarterKind
StarterKind-discrete = hlevel

unfoldable pub kind_to_byte : StarterKind → ℕ
kind_to_byte juice = 0
kind_to_byte spark = 1
kind_to_byte seed = 2
kind_to_byte pulse = 3
kind_to_byte kick = 4

unfoldable pub kind_from_u8 : ℕ → Option StarterKind
kind_from_u8 value =
    if value == 0
    then some juice
    else if value == 1
    then some spark
    else if value == 2
    then some seed
    else if value == 3
    then some pulse
    else if value == 4
    then some kick
    else none

pub data Network : Type 0 where
  hood neste : Network

unfoldable pub network_to_byte : Network → ℕ
network_to_byte hood = 0
network_to_byte neste = 1

unfoldable pub network_from_u8 : ℕ → Option Network
network_from_u8 value = if value == 0 then some hood else if value == 1 then some neste else none

-- A slot index is its number; `slot_index` is the checked constructor.
abbrev pub SlotIndex : Type 0
SlotIndex = ℕ

unfoldable pub slot_index : ℕ → Option SlotIndex
slot_index value = if ltb value 5 then some value else none
