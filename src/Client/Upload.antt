-- ===== src/Client/Upload.antt =====
-- From the ground's `upload_file` of xtce_sim/client.py to the vehicle's store.
use xtce_sim.Prelude.{
  ℕ, zero, suc, ◌+◌, ◌%◌, ◌^◌, ◌≤◌, ◌<◌, ◌≡◌, refl, sym, arith, List, [], ◌∷◌, ◌++◌, length,
  length-take, length-drop, length-append, take, drop, take-append-drop, none, true, ok, >>=-eq-ok,
  All, Bool-cases, inl, inr, leb, if◌then◌else◌,
}
use xtce_sim.Prelude.Bits.{bit_and_mask}
use xtce_sim.Prelude.Equality.{list_beq}
use xtce_sim.Struct.{Bytes}
use xtce_sim.Utf8.{Text, encode, encode_char, IsScalar}
use xtce_sim.Zlib.{crc32}
use xtce_sim.Ccsds.Uplink.{
  start, chunk_at, finish, file_chunk_max, build_file_start, build_file_data, build_file_finish,
  parse_file_uplink,
}
use xtce_sim.Ccsds.Uplink.RoundTrip.{
  parse-build_file_start, parse-build_file_data, parse-build_file_finish,
}
use xtce_sim.FileStore.{read, room_for}
use xtce_sim.FileStore.Names.{IsLegal, name_problem_iff}
use xtce_sim.FileService.{FileService}
use xtce_sim.FileService.Uplink.{transfer_of}
use xtce_sim.FileService.Uplink.Upload.{
  after_packets, chunk_events, whole, wire_crc, Parsed, upload_lands,
}
use xtce_sim.Client.{data_packets, upload_packets}

-- What the DATA packets are cut into: chunks of the rest, whose packets are read back in order.
abbrev Chunked : ℕ → ℕ → ℕ → ℕ → Bytes → Type 0
Chunked fuel n seq offset rest =
    (ps chunks : List Bytes) × (data_packets fuel n seq offset rest ≡ ok ps)
    × (whole chunks ≡ rest)
    × ((f : Bytes)
        → parse_file_uplink f ≡ ok finish
        → Parsed (ps ++ (f ∷ [])) (chunk_events offset chunks))

no_packets : (fuel n seq offset : ℕ) → data_packets fuel n seq offset [] ≡ ok []
unfolding data_packets
no_packets zero n seq offset = refl
no_packets (suc fuel) n seq offset = refl

none_left : (fuel n seq offset : ℕ) → Chunked fuel n seq offset []
unfolding data_packets
none_left zero n seq offset = ([], [], refl, refl, (λ f h. (h, tt)))
none_left (suc fuel) n seq offset = ([], [], refl, refl, (λ f h. (h, tt)))

drop_all : (n : ℕ) (xs : Bytes) → length xs ≤ n → drop n xs ≡ []
drop_all zero [] h = refl
drop_all zero (x ∷ xs) h = absurd (omega (arith, h))
drop_all (suc n) [] h = refl
drop_all (suc n) (x ∷ xs) h = drop_all n xs (omega (arith, h))

-- A chunk before the rest, where the next offset is the one behind it or the rest is empty.
chunk-Chunked :
    (fuel n seq offset b : ℕ) (rest : Bytes)
    → 1 ≤ n
    → n ≤ file_chunk_max
    → offset < 2 ^ 32
    → (m : ℕ) → offset + length (take n (b ∷ rest)) ≡ m
    → (ps chunks : List Bytes)
    → data_packets fuel n (seq + 1) (offset + n) (drop n (b ∷ rest)) ≡ ok ps
    → whole chunks ≡ drop n (b ∷ rest)
    → ((f : Bytes)
        → parse_file_uplink f ≡ ok finish
        → Parsed (ps ++ (f ∷ [])) (chunk_events m chunks))
    → Chunked (suc fuel) n seq offset (b ∷ rest)
unfolding data_packets
chunk-Chunked fuel n seq offset b rest more most small m behind ps chunks built joined parsed =
    let c = take n (b ∷ rest) in
    let short : length c ≤ file_chunk_max = omega (arith, length-take n (b ∷ rest), most) in
    let (p, first, read_back) =
      >>=-eq-ok (build_file_data offset c seq) parse_file_uplink {y = chunk_at offset c}
        (parse-build_file_data offset c seq small short) in
    (
      p ∷ ps,
      c ∷ chunks,
      rw (first, built) refl,
      rw joined (take-append-drop n (b ∷ rest)),
      (λ f h. (read_back, rw behind (parsed f h))),
    )

all_Chunked :
    (fuel n seq offset : ℕ) (rest : Bytes)
    → length rest ≤ fuel
    → 1 ≤ n
    → n ≤ file_chunk_max
    → offset + length rest < 2 ^ 32
    → Chunked fuel n seq offset rest
all_Chunked fuel n seq offset [] enough more most small = none_left fuel n seq offset
all_Chunked zero n seq offset (b ∷ rest) enough more most small = absurd (omega (arith, enough))
all_Chunked (suc fuel) n seq offset (b ∷ rest) enough more most small =
    elim (Bool-cases (leb n (length (b ∷ rest)))) [
      | inl long ↦
          let taken : length (take n (b ∷ rest)) ≡ n =
            ground (arith, length-take n (b ∷ rest), long) in
          let left = length-drop n (b ∷ rest) in
          let (ps, chunks, built, joined, parsed) =
            all_Chunked fuel n (seq + 1) (offset + n) (drop n (b ∷ rest))
              (omega (arith, left, enough, more)) more most (ground (arith, left, small, long)) in
          chunk-Chunked fuel n seq offset b rest more most (omega (arith, small)) (offset + n)
            (omega (arith, taken)) ps chunks built joined parsed
      | inr short ↦
          let gone : drop n (b ∷ rest) ≡ [] = drop_all n (b ∷ rest) (ground (arith, short)) in
          chunk-Chunked fuel n seq offset b rest more most (omega (arith, small))
            (offset + length (take n (b ∷ rest))) refl [] []
            (rw gone (no_packets fuel n (seq + 1) (offset + n))) (sym gone) (λ f h. (h, tt))
    ]

at_least_one : (c : ℕ) → 1 ≤ length (encode_char c)
unfolding encode_char
at_least_one c = ground arith

encode_nonempty : (name : Text) → 1 ≤ length name → 1 ≤ length (encode name)
unfolding encode
encode_nonempty [] h = absurd (omega (arith, h))
encode_nonempty (c ∷ name) h =
    omega (arith, length-append (encode_char c) (encode name), at_least_one c)

-- An upload that the ground prepares lands in the store of a vehicle that has room for it: the file is
-- read back as it was, the other files are as they were, the count has grown by one, and the connection
-- has no transfer left.
pub upload_packets-land :
    (s : FileService) (now source : ℕ) (name j : Text) (data_read : Bytes) (chunk_size : ℕ)
    → IsLegal name
    → IsLegal j
    → All IsScalar name
    → 1 ≤ chunk_size
    → chunk_size ≤ file_chunk_max
    → length data_read < 2 ^ 32
    → room_for s.store name (length data_read) ≡ ok true
    → (packets : List Bytes) × (upload_packets name data_read chunk_size ≡ ok packets)
      × (read (after_packets s now source packets).store j
          ≡ (if list_beq name j then ok data_read else read s.store j))
      × ((after_packets s now source packets).received_count ≡ s.received_count + 1)
      × (transfer_of (after_packets s now source packets) source ≡ none)
unfolding upload_packets
upload_packets-land s now source name j data_read chunk_size legal legal_j scalar more most small
      room =
    let jailed = (name_problem_iff name).0 legal in
    let size = length data_read in
    let crc = wire_crc data_read in
    let (first, sent, first_read) =
      >>=-eq-ok (build_file_start name size crc 0) parse_file_uplink
        {y = start name size (crc % 2 ^ 32)}
        (parse-build_file_start name size crc 0 scalar (encode_nonempty name jailed.named)
          (omega (arith, jailed.short)) small) in
    let (ps, chunks, built, joined, parsed) =
      all_Chunked size chunk_size 1 0 data_read (omega arith) more most (omega (arith, small)) in
    let (last, closed, last_read) =
      >>=-eq-ok (build_file_finish (1 + length ps)) parse_file_uplink {y = finish}
        (parse-build_file_finish (1 + length ps)) in
    let packets = first ∷ ps ++ (last ∷ []) in
    let read_back : Parsed packets
        (start name (length (whole chunks)) (wire_crc (whole chunks)) ∷ chunk_events 0 chunks) =
      (rw joined (rw masked at first_read), parsed last last_read) in
    let landed =
      upload_lands s now source name j chunks packets legal legal_j (rw joined room) read_back in
    (packets, rw (sent, built, closed) refl, rw joined at landed.0, landed.1, landed.2)
  where
    masked : wire_crc data_read % 2 ^ 32 ≡ wire_crc data_read
    masked = omega (arith, bit_and_mask 32 (crc32 data_read))
