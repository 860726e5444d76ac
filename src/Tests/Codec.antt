-- ===== src/Tests/Codec.antt =====
-- The theorems on xtce_sim/codec.py at concrete inputs.
use xtce_sim.Prelude.{arith, ◌≡◌, refl, List, [], ◌∷◌, length, true, ok}
use xtce_sim.Prelude.Dict
use xtce_sim.Prelude.Equality.{list_beq}
use xtce_sim.Struct.{Bytes}
use xtce_sim.Codec.{Value, int, raw, pack_items, unpack_from, size_of}
use xtce_sim.Codec.Layout.{seen_all}
use xtce_sim.Codec.Command.{
  encode_command, decode_command, range_violations, wire_values, coerce_arg, by_name,
  command_struct_format, decoded_all,
}
use xtce_sim.Codec.Command.Accepted.{Holds, encode_command-accepted}
use xtce_sim.Codec.{item_for}
use xtce_sim.Codec.Telemetry.{pack_telemetry, unpack_telemetry, fields_to_struct_format}
use xtce_sim.Codec.Telemetry.RoundTrip.{Reads, unpack_telemetry-pack}
use xtce_sim.Codec.Telemetry.Fit.{Suitable, pack_telemetry-Suitable}
use xtce_sim.Prelude.Int.{pos}
use xtce_sim.Prelude.Texts.{codes}
use xtce_sim.Prelude.Dict.{Dict}
use xtce_sim.Prelude.Equality.{list_eq}
use xtce_sim.Utf8.{Text}
use xtce_sim.Tests.Vehicle.{level, level_args, packet_def}

level-encoded : encode_command (level ∷ []) level_args true ≡ ok (3 ∷ [])
unfolding encode_command wire_values coerce_arg range_violations by_name pack_items Dict.get
    Dict.put list_beq xtce_sim.Codec.Command.arg_violation command_struct_format
    xtce_sim.Codec.pack_item xtce_sim.Codec.item_for
level-encoded = refl

encode_command-accepted_example :
    (vs : List Value) × (wire_values (level ∷ []) level_args ≡ ok vs)
    × Holds
        (level ∷ [])
        (decoded_all (level ∷ []) (seen_all (command_struct_format (level ∷ [])) vs))
        (decode_command (level ∷ []) (3 ∷ []))
    × (range_violations (level ∷ []) (decode_command (level ∷ []) (3 ∷ [])) ≡ [])
encode_command-accepted_example =
    encode_command-accepted (level ∷ []) level_args (3 ∷ []) (tt, tt) level-encoded

abbrev hot : Dict Text Value
hot = (codes "TEMP", int (pos 300)) ∷ []

hot-Suitable : Suitable packet_def.fields hot
unfolding Dict.get list_beq
hot-Suitable = ((omega arith, refl), tt)

pack_telemetry-Suitable_example :
    (b : Bytes) × (pack_telemetry packet_def hot ≡ ok b)
    × (length b ≡ size_of packet_def.struct_format)
pack_telemetry-Suitable_example = pack_telemetry-Suitable packet_def hot packet_format hot-Suitable
  where
    packet_format : packet_def.struct_format ≡ fields_to_struct_format packet_def.fields
    packet_format = unfold fields_to_struct_format item_for in refl

-- 300 is saturated to 255.
hot-packed : pack_telemetry packet_def hot ≡ ok (255 ∷ [])
unfolding pack_telemetry pack_items xtce_sim.Codec.pack_item Dict.get list_beq
hot-packed = refl

unpack_telemetry-pack_example :
    (d : Dict Text Value) × (unpack_telemetry packet_def (255 ∷ []) ≡ ok d)
    × Reads hot d packet_def.fields
unpack_telemetry-pack_example =
    unpack_telemetry-pack packet_def hot (255 ∷ [])
      (unfold fields_to_struct_format item_for in refl) (tt, tt) hot-packed
