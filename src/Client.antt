-- ===== src/Client.antt =====
-- `upload_file` of xtce_sim/client.py: the packets of an upload, and the matching of receipts. The socket
-- and the deadline are left out.
pub mod Upload
pub mod Verdict
use xtce_sim.Prelude.{
  ℕ, zero, suc, ◌+◌, ◌-◌, List, [], ◌∷◌, ◌++◌, length, take, drop, Option, none, some, Bool, true,
  false, ◌&&◌, not, Result, ok, err, value_error, ◌>>=◌, leb, ltb, ◌==◌, if◌then◌else◌, bit_and,
}
use xtce_sim.Prelude.Int.{ℤ, pos, leb_ℤ, eqb_ℤ}
use xtce_sim.Prelude.Texts.{codes, before}
use xtce_sim.Prelude.Equality.{list_eq, list_beq, nat_eq}
use xtce_sim.Prelude.Dict
use xtce_sim.Prelude.Dict.{Dict}
use xtce_sim.Struct.{Bytes}
use xtce_sim.Utf8.{Text, encode}
use xtce_sim.Zlib.{crc32}
use xtce_sim.Schema.{FieldInfo, PacketDef}
use xtce_sim.Codec.{Value, int, raw}
use xtce_sim.Codec.Telemetry.{unpack_telemetry}
use xtce_sim.Ccsds.Header.{unpack}
use xtce_sim.Ccsds.Uplink.{file_chunk_max, build_file_start, build_file_data, build_file_finish}
use xtce_sim.Ccsds.Frame.Deframe.{frame_all}
use xtce_sim.FileStore.{NameProblem, name_problem}

-- The DATA packets from an offset on, on fuel; a chunk takes at least one byte of the rest.
unfoldable pub data_packets : ℕ → ℕ → ℕ → ℕ → Bytes → Result (List Bytes)
data_packets zero chunk_size seq offset rest = ok []
data_packets (suc fuel) chunk_size seq offset [] = ok []
data_packets (suc fuel) chunk_size seq offset (b ∷ rest) =
    let more =
      data_packets fuel chunk_size (seq + 1) (offset + chunk_size) (drop chunk_size (b ∷ rest)) in
    build_file_data offset (take chunk_size (b ∷ rest)) seq >>= λ p. more >>= λ ps. ok (p ∷ ps)

-- START, the DATA packets and FINISH.
unfoldable pub upload_packets : Text → Bytes → ℕ → Result (List Bytes)
upload_packets filename data_read chunk_size = do
  first ← build_file_start filename (length data_read) (bit_and (crc32 data_read) 0xffffffff) 0
  chunks ← data_packets (length data_read) chunk_size 1 0 data_read
  last ← build_file_finish (1 + length chunks)
  ok (first ∷ chunks ++ (last ∷ []))

-- A refusal of the name, or what is sent or raised.
pub data Prepared : Type 0 where
  upload_error : NameProblem → Prepared
  sent : Result Bytes → Prepared

-- `upload_file` up to the socket.
unfoldable pub upload_file : (Bytes → ℕ) → Text → Bytes → ℕ → Prepared
upload_file crc16 filename data_read chunk_size =
    if leb 1 chunk_size && leb chunk_size file_chunk_max
    then elim (name_problem filename) [
      | some problem ↦ upload_error problem
      | none ↦
          sent (upload_packets filename data_read chunk_size >>= λ packets. frame_all crc16 packets)
    ]
    else sent (err value_error)

-- `_ReceiptMatcher`; its constructor reads the values of the two labels.
pub record ReceiptMatcher : Type 0 where
  pub receipt_def : PacketDef
  pub wanted_name : Bytes
  pub wanted_size : ℕ
  pub wanted_crc : ℕ
  pub in_progress : ℤ
  pub success : ℤ
  pub baseline : Option ℤ

abbrev is_int : Option Value → ℤ → Bool
is_int (some (int z)) n = eqb_ℤ z n
is_int v n = false

abbrev name_of : Option Value → Bytes
name_of (some (raw b)) = before 0 b
name_of v = []

-- The comparison of the triple.
abbrev pub is_wanted : ReceiptMatcher → Dict Text Value → Bool
is_wanted m values =
    list_beq (name_of (Dict.get values (codes "FR_FILENAME"))) m.wanted_name
    && is_int (Dict.get values (codes "FR_FILE_SIZE")) (pos m.wanted_size)
    && is_int (Dict.get values (codes "FR_CHECKSUM")) (pos m.wanted_crc)

abbrev pub has_apid : Bytes → ℕ → Bool
has_apid packet apid = elim (unpack packet) [ ok h ↦ h.apid == apid | err e ↦ false ]

-- The decoded receipt, if it is of the transfer.
abbrev pub matched : ReceiptMatcher → Result (Dict Text Value) → Option (Dict Text Value)
matched m (err e) = none
matched m (ok values) = if is_wanted m values then some values else none

-- `_ours`
unfoldable pub ours : ReceiptMatcher → Bytes → Option (Dict Text Value)
ours m packet =
    if leb 6 (length packet) && has_apid packet m.receipt_def.apid
    then matched m (unpack_telemetry m.receipt_def (drop 6 packet))
    else none

-- `baseline is not None and count > baseline`. The count is a number: `_confirmable` has asked for its
-- field before a receipt is read.
abbrev pub advanced : Option ℤ → Option Value → Bool
advanced (some b) (some (int z)) = not (leb_ℤ z b)
advanced b v = false

abbrev pub int_of : Option Value → Option ℤ
int_of (some (int z)) = some z
int_of v = none

-- One turn of the loop of `verdict` on a receipt of ours: the verdict, or the matcher that goes on.
unfoldable pub judge : ReceiptMatcher → Dict Text Value → Option (Dict Text Value) × ReceiptMatcher
judge m values =
    let status = Dict.get values (codes "FR_TRANSFER_STATUS") in
    let count = Dict.get values (codes "FR_FILE_RECEIVED_COUNT") in
    if is_int status m.in_progress
    then (none, record m { baseline = int_of count })
    else if not (is_int status m.success)
    then (some values, m)
    else if advanced m.baseline count
    then (some values, m)
    else (none, m)

abbrev pub judged :
    ReceiptMatcher → Option (Dict Text Value) → Option (Dict Text Value) × ReceiptMatcher
judged m none = (none, m)
judged m (some values) = judge m values

-- The loop returns what it has found, or goes on.
abbrev pub or_later :
    Option (Dict Text Value) × ReceiptMatcher
    → Option (Dict Text Value) × ReceiptMatcher
    → Option (Dict Text Value) × ReceiptMatcher
or_later (some values, m) rest = (some values, m)
or_later (none, m) rest = rest

-- `verdict`
unfoldable pub verdict : ReceiptMatcher → List Bytes → Option (Dict Text Value) × ReceiptMatcher
verdict m [] = (none, m)
verdict m (packet ∷ packets) =
    let turn = judged m (ours m packet) in let rest = verdict turn.1 packets in or_later turn rest

-- `is_success`
abbrev pub is_success : ReceiptMatcher → Dict Text Value → Bool
is_success m values = is_int (Dict.get values (codes "FR_TRANSFER_STATUS")) m.success
