-- ===== src/Codec/Telemetry/RoundTrip.antt =====
-- `unpack_telemetry` of xtce_sim/codec.py on what `pack_telemetry` has packed.
use xtce_sim.Prelude.{◌≡◌, ◌≢◌, refl, arith, List, [], ◌∷◌, length, All, some, true, ok, leb}
use xtce_sim.Prelude.Equality.{list_eq, beq_self, beq-ne}
use xtce_sim.Prelude.Dict
use xtce_sim.Prelude.Dict.{Dict}
use xtce_sim.Struct.{Bytes}
use xtce_sim.Utf8.{Text}
use xtce_sim.Schema.{FieldInfo, PacketDef}
use xtce_sim.Codec.{Value, item_for, size_of, unpack_items}
use xtce_sim.Codec.Layout.{seen, seen_all, unpack-pack_items}
use xtce_sim.Codec.Telemetry.{
  fit_telemetry_value, or_default, ordered, pack_telemetry, named, unpack_telemetry,
  fields_to_struct_format,
}

-- The fields of a packet have names of their own.
abbrev pub DistinctFields : List FieldInfo → Type 0
DistinctFields [] = Unit {0}
DistinctFields (f ∷ fs) = All (λ (g : FieldInfo). g.name ≢ f.name) fs × DistinctFields fs

-- A field's value on the wire: the one that is given for it, or its default, cut or saturated to the
-- field, and padded.
abbrev pub wire_value : Dict Text Value → FieldInfo → Value
wire_value values f =
    seen (item_for f.python_type f.size_bits)
      (fit_telemetry_value f (or_default f.python_type (Dict.get values f.name)))

-- The dict has the value of each field under its name.
abbrev pub Reads : Dict Text Value → Dict Text Value → List FieldInfo → Type 0
Reads values d fs = All (λ (f : FieldInfo). Dict.get d f.name ≡ some (wire_value values f)) fs

Reads-cons :
    (values d : Dict Text Value) (name : Text) (v : Value) (fs : List FieldInfo)
    → All (λ (g : FieldInfo). g.name ≢ name) fs
    → Reads values d fs
    → Reads values ((name, v) ∷ d) fs
unfolding Dict.get
Reads-cons values d name v [] apart h = tt
Reads-cons values d name v (f ∷ fs) apart h =
    (rw (beq-ne name f.name (λ e. apart.0 (cc e))) h.0, Reads-cons values d name v fs apart.1 h.1)

named-Reads :
    (values : Dict Text Value) (fs : List FieldInfo)
    → DistinctFields fs
    → Reads values (named fs (seen_all (fields_to_struct_format fs) (ordered fs values))) fs
unfolding named ordered fields_to_struct_format Dict.get
named-Reads values [] apart = tt
named-Reads values (f ∷ fs) apart =
    let d = named fs (seen_all (fields_to_struct_format fs) (ordered fs values)) in
    (
      rw (beq_self f.name) refl,
      Reads-cons values d f.name (wire_value values f) fs apart.0 (named-Reads values fs apart.1),
    )

-- What `pack_telemetry` has packed, `unpack_telemetry` reads back: under the name of each field stands its
-- value, cut or saturated to the field as it was packed, when the format is that of the fields and their
-- names are distinct.
pub unpack_telemetry-pack :
    (packet : PacketDef) (values : Dict Text Value) (payload : Bytes)
    → packet.struct_format ≡ fields_to_struct_format packet.fields
    → DistinctFields packet.fields
    → pack_telemetry packet values ≡ ok payload
    → (d : Dict Text Value) × (unpack_telemetry packet payload ≡ ok d)
      × Reads values d packet.fields
unfolding pack_telemetry unpack_telemetry unpack_items
unpack_telemetry-pack packet values payload same apart h =
    let (size, read) =
      unpack-pack_items packet.struct_format (ordered packet.fields values) payload h in
    let exact : leb (length payload) (size_of packet.struct_format) ≡ true = ground (arith, size) in
    let whole : leb (size_of packet.struct_format) (length payload) ≡ true = ground (arith, size) in
    (
      named packet.fields (seen_all packet.struct_format (ordered packet.fields values)),
      rw (exact, whole, read) refl,
      rw same (named-Reads values packet.fields apart),
    )
