-- ===== src/FileService.antt =====
-- `FileService` of xtce_sim/fileservice.py: uplink reassembly and the FILE_* commands. Log lines
-- are not modelled, so a receipt leaves its text out. The clock's reading and what the disk
-- answers to a write are arguments.
pub mod Uplink
pub mod Commands
use Prim.Native.String.{String}
use text.Mathlib.Text.{◌==◌ as str_eq}
use xtce_sim.Prelude.{
  ℕ, ◌+◌, List, [], ◌∷◌, Option, none, some, Bool, true, false, Result, ok, err, if◌then◌else◌,
  is_some,
}
use xtce_sim.Prelude.Dict.{Dict}
use xtce_sim.Struct.{Bytes}
use xtce_sim.Utf8.{Text, encode}
use xtce_sim.FileStore.{FileStore, used, available}

-- `_Transfer`
pub record Transfer : Type 0 where
  pub filename : Text
  pub size : ℕ
  pub crc : ℕ
  pub buffer : Bytes

pub data Status : Type 0 where
  success failed in_progress : Status

-- `_STATUS_VALUES`
abbrev pub canonical_value : Status → ℕ
canonical_value success = 0
canonical_value failed = 1
canonical_value in_progress = 2

abbrev pub status_label : Status → String
status_label success = "SUCCESS"
status_label failed = "FAILED"
status_label in_progress = "IN_PROGRESS"

label_value : List (String × ℕ) → String → Option ℕ
label_value [] label = none
label_value ((l, v) ∷ labels) label = if str_eq l label then some v else label_value labels label

-- The FILE_RECEIPT packet: its APID, and the labels of its FR_TRANSFER_STATUS field.
pub record ReceiptPacket : Type 0 where
  pub apid : ℕ
  pub labels : List (String × ℕ)

-- `_bind_status_labels`
unfoldable pub bind_status_labels : Option ReceiptPacket → Status → ℕ
unfolding label_value
bind_status_labels none status = canonical_value status
bind_status_labels (some packet) status = elim (label_value packet.labels (status_label status)) [
  | none ↦ canonical_value status
  | some value ↦ value
]

-- The connections are the keys of `transfers`.
pub record FileService : Type 0 where
  pub store : FileStore
  pub receipt : Option ReceiptPacket
  pub received_count : ℕ
  pub transfers : Dict ℕ Transfer

-- `FileService.__init__`
abbrev pub new_service : FileStore → Option ReceiptPacket → FileService
new_service store receipt = record {
  store = store;
  receipt = receipt;
  received_count = 0;
  transfers = [];
}

-- The values of one FILE_RECEIPT packet, by its FR_* fields.
pub record Receipt : Type 0 where
  pub filename : Bytes
  pub file_size : ℕ
  pub checksum : ℕ
  pub timestamp : ℕ
  pub transfer_status : ℕ
  pub file_received_count : ℕ
  pub storage_used : ℕ
  pub storage_available : ℕ

-- `_receipt_values`
unfoldable pub receipt_values : FileService → ℕ → Text → ℕ → ℕ → Status → Receipt
receipt_values s now filename size crc status = record {
  filename = encode filename;
  file_size = size;
  checksum = crc;
  timestamp = now;
  transfer_status = bind_status_labels s.receipt status;
  file_received_count = s.received_count;
  storage_used = used s.store;
  storage_available = available s.store;
}

-- `_event`
unfoldable pub event : FileService → ℕ → Text → ℕ → ℕ → Status → List Receipt
event s now filename size crc status =
    if is_some s.receipt then receipt_values s now filename size crc status ∷ [] else []

-- What a method returns or raises, and the service after it.
abbrev pub Answer : Type 0
Answer = Result (List Receipt) × FileService
