-- ===== src/Tests/Client.antt =====
-- The matcher of xtce_sim/client.py at a concrete downlink: the receipts of an upload of "b".
use xtce_sim.Prelude.{ℕ, List, [], ◌∷◌, none, false}
use xtce_sim.Prelude.Int.{pos}
use xtce_sim.Prelude.Texts.{codes}
use xtce_sim.Struct.{Bytes}
use xtce_sim.Utf8.{Text}
use xtce_sim.Schema.{FieldInfo, PacketDef, PythonType, string, uint8, word, blob, w1}
use xtce_sim.Client.{ReceiptMatcher, verdict}
use xtce_sim.Client.Verdict.{Turned, verdict-Turned}

abbrev field : Text → ℕ → PythonType → FieldInfo
field name size_bits python_type = record {
  name = name;
  size_bits = size_bits;
  python_type = python_type;
  enumerations = [];
}

abbrev file_receipt : PacketDef
file_receipt = record {
  name = codes "FILE_RECEIPT";
  apid = 100;
  fields =
      field (codes "FR_FILENAME") 16 string
      ∷ field (codes "FR_FILE_SIZE") 8 uint8
      ∷ field (codes "FR_CHECKSUM") 8 uint8
      ∷ field (codes "FR_TRANSFER_STATUS") 8 uint8
      ∷ field (codes "FR_FILE_RECEIVED_COUNT") 8 uint8
      ∷ [];
  struct_format = blob 2 ∷ word false w1 ∷ word false w1 ∷ word false w1 ∷ word false w1 ∷ [];
  period = none;
}

abbrev matcher : ReceiptMatcher
matcher = record {
  receipt_def = file_receipt;
  wanted_name = b'b' ∷ [];
  wanted_size = 2;
  wanted_crc = 7;
  in_progress = pos 2;
  success = pos 0;
  baseline = none;
}

-- IN_PROGRESS with a count of 4, and SUCCESS with a count of 5.
abbrev downlink : List Bytes
downlink =
    (8 ∷ 100 ∷ 192 ∷ 0 ∷ 0 ∷ 5 ∷ b'b' ∷ 0 ∷ 2 ∷ 7 ∷ 2 ∷ 4 ∷ [])
    ∷ (8 ∷ 100 ∷ 192 ∷ 1 ∷ 0 ∷ 5 ∷ b'b' ∷ 0 ∷ 2 ∷ 7 ∷ 0 ∷ 5 ∷ [])
    ∷ []

verdict-Turned_example : Turned matcher downlink (verdict matcher downlink)
verdict-Turned_example = verdict-Turned matcher downlink
