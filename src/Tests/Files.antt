-- ===== src/Tests/Files.antt =====
-- The theorems on xtce_sim/fileservice.py at concrete inputs: a store with the file "a" of two bytes,
-- and an upload of "b".
use xtce_sim.Prelude.{
  ℕ, ◌≤◌, ◌≡◌, ◌↔◌, ◌⊎◌, inl, refl, arith, List, [], ◌∷◌, max, none, some, true, ok, err,
  file_not_found, if◌then◌else◌,
}
use xtce_sim.Prelude.Equality.{list_eq, list_beq, nat_eq}
use xtce_sim.Prelude.Dict
use xtce_sim.Struct.{Bytes, unpack_u32}
use xtce_sim.Utf8.{Text, encode, decode}
use xtce_sim.FileStore.{FileStore, name_problem, read, write, used, room_for, path, available}
use xtce_sim.FileStore.Names.{IsLegal, IsJailed, name_problem_iff}
use xtce_sim.FileStore.Contents.{read-write}
use xtce_sim.FileService.{FileService, Transfer, ReceiptPacket, new_service, event, success}
use xtce_sim.FileService.Commands.{raw, decode_filename_arg, handle_command, file_delete}
use xtce_sim.FileService.Commands.Laws.{delete_lem}
use xtce_sim.FileService.Uplink.{handle_uplink, transfer_of}
use xtce_sim.FileService.Uplink.Invariant.{
  AllSound, IsSound, Good, put-AllSound, handle_uplink-Good,
}
use xtce_sim.FileService.Uplink.Landing.{
  IsVerified, Effect, handle_uplink-Effect, handle_uplink-used, handle_uplink-read,
}
use xtce_sim.FileService.Uplink.Upload.{
  after_packets, chunk_events, whole, wire_crc, Parsed, upload_lands,
}
use xtce_sim.Ccsds.Uplink.{start, parse_file_uplink, parse_file_start}
use xtce_sim.Zlib.{crc32}
use xtce_sim.Client.{upload_packets}
use xtce_sim.Client.Upload.{upload_packets-land}

abbrev a_name : Text
a_name = b'a' ∷ []

abbrev b_name : Text
b_name = b'b' ∷ []

abbrev store : FileStore
store = record { files = (a_name, 1 ∷ 2 ∷ []) ∷ []; quota = 10 }

a_name-IsLegal : IsLegal a_name
unfolding name_problem encode list_beq
a_name-IsLegal = refl

b_name-IsLegal : IsLegal b_name
unfolding name_problem encode list_beq
b_name-IsLegal = refl

a_content : read store a_name ≡ ok (1 ∷ 2 ∷ [])
unfolding read path name_problem encode list_beq Dict.get
a_content = refl

name_problem_iff_example : (name_problem a_name ≡ none) ↔ IsJailed a_name
name_problem_iff_example = name_problem_iff a_name

read-write_example :
    read (write true store b_name (3 ∷ [])).1 a_name
    ≡ (if list_beq b_name a_name then ok (3 ∷ []) else read store a_name)
read-write_example = read-write store b_name a_name (3 ∷ []) b_name-IsLegal a_name-IsLegal

abbrev packet : ReceiptPacket
packet = record { apid = 100; labels = ("SUCCESS", 5) ∷ [] }

abbrev transfer : Transfer
transfer = record { filename = b_name; size = 0; crc = 0; buffer = [] }

-- Connection 1 is at the end of an upload of no bytes named "b".
abbrev service : FileService
service = record (new_service store (some packet)) { transfers = (1, transfer) ∷ [] }

no_transfers : (source : ℕ) (t : Transfer) → Dict.get {V = Transfer} [] source ≡ some t → IsSound t
unfolding Dict.get
no_transfers source t e = absurd (ground (arith, e))

service-AllSound : AllSound service.transfers
unfolding Dict.put
service-AllSound =
    put-AllSound [] 1 transfer no_transfers
      (record { legal = b_name-IsLegal; within = omega arith })

-- A FINISH packet.
abbrev finish_packet : Bytes
finish_packet = 0x17 ∷ 0xfe ∷ 0xc0 ∷ 0 ∷ 0 ∷ 0 ∷ 2 ∷ []

handle_uplink-Good_example : Good (handle_uplink service 9 true 1 finish_packet)
handle_uplink-Good_example = handle_uplink-Good service 9 true 1 finish_packet service-AllSound

handle_uplink-Effect_example : Effect service 1 (handle_uplink service 9 true 1 finish_packet).1
handle_uplink-Effect_example = handle_uplink-Effect service 9 true 1 finish_packet service-AllSound

handle_uplink-used_example :
    used (handle_uplink service 9 true 1 finish_packet).1.store
    ≤ max service.store.quota (used service.store)
handle_uplink-used_example = handle_uplink-used service 9 true 1 finish_packet service-AllSound

handle_uplink-read_example :
    (read (handle_uplink service 9 true 1 finish_packet).1.store b_name ≡ read service.store b_name)
    ⊎ ((t : Transfer) × (transfer_of service 1 ≡ some t)
        × IsVerified t
        × (t.filename ≡ b_name)
        × (read (handle_uplink service 9 true 1 finish_packet).1.store b_name ≡ ok t.buffer))
handle_uplink-read_example =
    handle_uplink-read service 9 true 1 finish_packet b_name service-AllSound b_name-IsLegal

-- The name and the padding.
abbrev padded : Bytes
padded = b'a' ∷ 0 ∷ 0 ∷ []

padded-name : decode_filename_arg (raw padded) ≡ a_name
unfolding decode_filename_arg decode
padded-name = refl

delete_lem_example :
    (s' : FileService) × (handle_command service 9 file_delete (raw padded)
      ≡ (ok (event s' 9 (decode_filename_arg (raw padded)) 2 0 success), s'))
    × (read s'.store b_name ≡ (
        if list_beq (decode_filename_arg (raw padded)) b_name
        then err file_not_found
        else read store b_name))
delete_lem_example =
    delete_lem service 9 (raw padded) b_name (1 ∷ 2 ∷ []) (rw padded-name a_name-IsLegal)
      b_name-IsLegal (rw padded-name a_content)

abbrev chunks : List Bytes
chunks = (b'h' ∷ b'i' ∷ []) ∷ []

abbrev upload : List Bytes
upload =
    (0x17 ∷ 0xfe ∷ 0xc0 ∷ 0 ∷ 0 ∷ 10 ∷ 0 ∷ 1 ∷ b'b' ∷ 0 ∷ 0 ∷ 0 ∷ 2 ∷ 216 ∷ 147 ∷ 42 ∷ 172 ∷ [])
    ∷ (0x17 ∷ 0xfe ∷ 0xc0 ∷ 1 ∷ 0 ∷ 6 ∷ 1 ∷ 0 ∷ 0 ∷ 0 ∷ 0 ∷ b'h' ∷ b'i' ∷ [])
    ∷ (0x17 ∷ 0xfe ∷ 0xc0 ∷ 2 ∷ 0 ∷ 0 ∷ 2 ∷ [])
    ∷ []

upload-Parsed : Parsed upload (start b_name 2 (wire_crc (whole chunks)) ∷ chunk_events 0 chunks)
unfolding parse_file_uplink parse_file_start decode unpack_u32 crc32
upload-Parsed = (refl, (refl, (refl, tt)))

upload_lands_example :
    (read (after_packets (new_service store none) 9 1 upload).store a_name
      ≡ (if list_beq b_name a_name then ok (whole chunks) else read store a_name))
    × ((after_packets (new_service store none) 9 1 upload).received_count ≡ 1)
    × (transfer_of (after_packets (new_service store none) 9 1 upload) 1 ≡ none)
upload_lands_example =
    upload_lands (new_service store none) 9 1 b_name a_name chunks upload b_name-IsLegal
      a_name-IsLegal
      (unfold room_for path name_problem encode list_beq available used Dict.get in refl)
      upload-Parsed

upload_packets-land_example :
    (packets : List Bytes) × (upload_packets b_name (b'h' ∷ b'i' ∷ []) 1 ≡ ok packets)
    × (read (after_packets (new_service store none) 9 1 packets).store a_name
        ≡ (if list_beq b_name a_name then ok (b'h' ∷ b'i' ∷ []) else read store a_name))
    × ((after_packets (new_service store none) 9 1 packets).received_count ≡ 1)
    × (transfer_of (after_packets (new_service store none) 9 1 packets) 1 ≡ none)
upload_packets-land_example =
    upload_packets-land (new_service store none) 9 1 b_name a_name (b'h' ∷ b'i' ∷ []) 1
      b_name-IsLegal a_name-IsLegal (inl (omega arith), tt) (omega arith) (omega arith)
      (omega arith)
      (unfold room_for path name_problem encode list_beq available used Dict.get in refl)
