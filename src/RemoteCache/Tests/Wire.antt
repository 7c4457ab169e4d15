-- ===== src/RemoteCache/Tests/Wire.antt =====
-- remote_cache/wire.py on bytes.
use tine.RemoteCache.Wire.Fields
use tine.RemoteCache.Wire.Fields.{read_value}
use tine.Base.{◌+◌, ◌<◌, ◌^◌, ◌≡◌, refl, [], ◌∷◌, ◌++◌, All, arith, inl, inr, ◌≢◌}
use tine.Base.Text.{Text, encode, decode, text_of, IsScalar, decode-encode}
use tine.RemoteCache.Outcome.{ok, err, field_zero, no_fuel}
use tine.RemoteCache.Wire.Varint.{read_varint, write_varint}
use tine.RemoteCache.Wire.Varint.Bounds.{read_varint_bound}
use tine.RemoteCache.Wire.Varint.RoundTrip.{read_varint-write_varint}
use tine.RemoteCache.Wire.Fields.{fields, int, blob}
use tine.RemoteCache.Wire.Fields.Consumes.{fields-ne-no_fuel}
use tine.RemoteCache.Wire.Message.{message}
use tine.RemoteCache.Wire.Message.Lookup.{holding}

varint_300 : write_varint 300 ≡ 0xac ∷ 0x02 ∷ []
unfolding write_varint
varint_300 = refl

zero_is_no_field : fields (0 ∷ []) ≡ err field_zero
unfolding fields read_varint read_value
zero_is_no_field = refl

read_varint-write_varint_example :
    read_varint (write_varint (2 ^ 64 + 5) ++ (7 ∷ [])) ≡ ok (2 ^ 64 + 5, 7 ∷ [])
read_varint-write_varint_example = read_varint-write_varint (2 ^ 64 + 5) (7 ∷ []) (omega arith)

three_hundred : read_varint (0xac ∷ 0x02 ∷ 9 ∷ []) ≡ ok (300, 9 ∷ [])
unfolding read_varint
three_hundred = refl

read_varint_bound_example : 300 < 2 ^ 70
read_varint_bound_example = read_varint_bound (0xac ∷ 0x02 ∷ 9 ∷ []) 300 (9 ∷ []) three_hundred

abbrev text_of_cafe : Text
text_of_cafe = text_of "cafe" ++ (0x301 ∷ 0x1f600 ∷ [])

text_of_cafe-IsScalar : All IsScalar text_of_cafe
text_of_cafe-IsScalar = (
  inl (omega arith),
  (
    inl (omega arith),
    (
      inl (omega arith),
      (inl (omega arith), (inl (omega arith), (inr (omega arith, omega arith), tt))),
    ),
  ),
)

decode-encode_example : decode (encode text_of_cafe) ≡ text_of_cafe
decode-encode_example = decode-encode text_of_cafe text_of_cafe-IsScalar

fields-ne-no_fuel_example : fields (8 ∷ 1 ∷ []) ≢ err no_fuel
fields-ne-no_fuel_example = fields-ne-no_fuel (8 ∷ 1 ∷ [])

reads_back :
    message (8 ∷ 1 ∷ 8 ∷ 5 ∷ []) ≡ ok (holding (8 ∷ 1 ∷ 8 ∷ 5 ∷ []) ((1, int 1) ∷ (1, int 5) ∷ []))
unfolding message fields read_varint Fields.read_value
reads_back = refl
