-- ===== src/RemoteCache/Shim/Pointer.antt =====
-- `Pointer` of remote_cache/shim.py with `ac_pack` and `ac_unpack`.
pub mod RoundTrip
use tine.Base.{
  ℕ, Bool, true, false, not, Option, none, some, List, [], ◌∷◌, ◌++◌, Bytes, if◌then◌else◌,
}
use tine.Base.Text.{Text}
use tine.RemoteCache.Outcome.{Result, ok, err, ◌>>=◌, no_bundle_name}
use tine.RemoteCache.Reapi.Result.{ActionResult, parse}
use tine.RemoteCache.Signing.Envelope.{is_sha256_hex}
use tine.RemoteCache.Wire.Message
use tine.RemoteCache.Wire.Message.{Message, message}
use tine.RemoteCache.Wire.Writer

pub record Pointer : Type 0 where
  pub bundle : Text
  pub result : Bytes

-- BUNDLE_FIELD and RESULT_FIELD are 1 and 2.
unfoldable pub ac_pack : Pointer → Bytes
ac_pack p = Writer.text 1 p.bundle ++ Writer.blob 2 p.result

abbrev pub pointer_in : Message → Result Pointer
pointer_in one =
    if not (is_sha256_hex (Message.text one 1))
    then err no_bundle_name
    else ok (record { bundle = Message.text one 1; result = Message.last_blob one 2 })

unfoldable pub ac_unpack : Bytes → Result Pointer
ac_unpack bytes = do one ← message bytes; pointer_in one

-- The pointer that verified bytes hold, and its result.
unfoldable pub read_pointer : Bytes → Result (Pointer × ActionResult)
read_pointer payload = do
  pointer ← ac_unpack payload
  result ← parse pointer.result
  ok (pointer, result)
