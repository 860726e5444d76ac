-- ===== src/Tests/Ccsds.antt =====
-- The theorems on xtce_sim/ccsds.py and the receive loop of xtce_sim/server.py at concrete inputs.
-- The checksum of a packet is its length here.
use xtce_sim.Prelude.{ℕ, ◌≡◌, refl, inl, false, arith, List, [], ◌∷◌, ◌++◌, length, some, ok, ◌>>=◌}
use xtce_sim.Struct.{Bytes, IsBytes, unpack_u16, pack_u16}
use xtce_sim.Utf8.{Text, decode, encode, strict}
use xtce_sim.Utf8.RoundTrip.{decode-encode}
use xtce_sim.Ccsds.Header.{CcsdsHeader, default_header, pack, unpack}
use xtce_sim.Ccsds.Header.RoundTrip.{wire_view, unpack-pack}
use xtce_sim.Ccsds.Frame.{deframe, scan, frame}
use xtce_sim.Ccsds.Frame.Stream.{prepend, deframe-append}
use xtce_sim.Ccsds.Frame.Deframe.{IsIncomplete, frame_all, deframe-frame_all, frame_all-deframe}
use xtce_sim.Server.Receive.{receive, receive-joined}

abbrev header : CcsdsHeader
header = record default_header { apid = 3000; seq_count = 20000 }

unpack-pack_example : (pack header >>= λ b. unpack (b ++ (7 ∷ []))) ≡ ok (wire_view header)
unpack-pack_example = unpack-pack header (7 ∷ [])

abbrev name : Text
name = b'a' ∷ 0xe9 ∷ []

decode-encode_example : decode strict (encode name) ≡ some name
decode-encode_example = decode-encode strict name (inl (omega arith), (inl (omega arith), tt))

abbrev crc16 : Bytes → ℕ
crc16 b = length b

-- Two packets in frames, and a part of a third frame.
abbrev wire : Bytes
wire = 0 ∷ 6 ∷ 1 ∷ 2 ∷ 0 ∷ 2 ∷ 0 ∷ 5 ∷ 3 ∷ 0 ∷ 1 ∷ []

abbrev packets : List Bytes
packets = (1 ∷ 2 ∷ []) ∷ (3 ∷ []) ∷ []

wire-deframe : deframe crc16 (wire ++ (0 ∷ 9 ∷ [])) ≡ ok (packets, 0 ∷ 9 ∷ [])
unfolding deframe scan unpack_u16
wire-deframe = refl

wire-framed : frame_all crc16 packets ≡ ok wire
unfolding frame pack_u16
wire-framed = refl

wire-IsBytes : IsBytes (wire ++ (0 ∷ 9 ∷ []))
wire-IsBytes = omega arith

deframe-append_example :
    deframe crc16 ((wire ++ (0 ∷ 9 ∷ [])) ++ (4 ∷ []))
    ≡ prepend packets (deframe crc16 ((0 ∷ 9 ∷ []) ++ (4 ∷ [])))
deframe-append_example = deframe-append crc16 (wire ++ (0 ∷ 9 ∷ [])) (4 ∷ []) wire-deframe

deframe-frame_all_example : deframe crc16 (wire ++ (0 ∷ 9 ∷ [])) ≡ ok (packets, 0 ∷ 9 ∷ [])
deframe-frame_all_example = deframe-frame_all crc16 packets (0 ∷ 9 ∷ []) wire-framed (omega arith)

frame_all-deframe_example :
    (w : Bytes) × (frame_all crc16 packets ≡ ok w)
    × (wire ++ (0 ∷ 9 ∷ []) ≡ w ++ (0 ∷ 9 ∷ []))
    × IsIncomplete (0 ∷ 9 ∷ [])
frame_all-deframe_example =
    frame_all-deframe crc16 (wire ++ (0 ∷ 9 ∷ [])) packets (0 ∷ 9 ∷ []) wire-IsBytes wire-deframe

receive-joined_example :
    receive crc16 [] ((0 ∷ 6 ∷ 1 ∷ []) ∷ (2 ∷ 0 ∷ 2 ∷ 0 ∷ []) ∷ (5 ∷ 3 ∷ 0 ∷ 1 ∷ []) ∷ [])
    ≡ (packets, false)
receive-joined_example =
    receive-joined crc16 ((0 ∷ 6 ∷ 1 ∷ []) ∷ (2 ∷ 0 ∷ 2 ∷ 0 ∷ []) ∷ (5 ∷ 3 ∷ 0 ∷ 1 ∷ []) ∷ [])
      packets [] (tt, (tt, (tt, tt))) (unfold deframe scan unpack_u16 in refl)
