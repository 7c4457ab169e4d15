-- ===== src/RemoteCache/Reapi/Result.antt =====
-- `ActionResult`, `tree_files`, and the two requests about an action, of remote_cache/reapi.py.
pub mod RoundTrip
use tine.Base.{ℕ, Option, none, some, List, [], ◌∷◌, ◌++◌, Bytes, last_or}
use tine.RemoteCache.Outcome.{Result, ok, ◌>>=◌}
use tine.RemoteCache.Wire.Message
use tine.RemoteCache.Wire.Message.{Message, message}
use tine.RemoteCache.Wire.Writer
use tine.RemoteCache.Reapi.Digest
use tine.RemoteCache.Reapi.Digest.{Digest}

pub record ActionResult : Type 0 where
  pub raw : Bytes
  pub file_digests : List Digest
  pub tree_digests : List Digest
  pub stdout : Option Digest
  pub stderr : Option Digest

abbrev pub kept {ℓ} : {A : Type ℓ} → Option A → List A → List A
kept none others = others
kept (some one) others = one ∷ others

-- The digests that these messages carry under a number; one without is passed over.
unfoldable pub digests_under : ℕ → List Message → Result (List Digest)
digests_under number [] = ok []
digests_under number (output ∷ outputs) = do
  part ← Message.child output number
  others ← digests_under number outputs
  ok (kept (Digest.of part) others)

-- `ActionResult.parse`
unfoldable pub parse : Bytes → Result ActionResult
parse bytes = do
  one ← message bytes
  files ← Message.children one 2
  file_digests ← digests_under 2 files
  trees ← Message.children one 3
  tree_digests ← digests_under 3 trees
  stdout ← Message.child one 6
  stderr ← Message.child one 8
  ok (record {
    raw = bytes;
    file_digests = file_digests;
    tree_digests = tree_digests;
    stdout = Digest.of stdout;
    stderr = Digest.of stderr;
  })

unfoldable pub to_bytes : ActionResult → Bytes
to_bytes r = r.raw

unfoldable pub named : ActionResult → List Digest
named r = r.file_digests ++ (r.tree_digests ++ kept r.stdout (kept r.stderr []))

unfoldable pub nodes_under : List Message → Result (List Digest)
nodes_under [] = ok []
nodes_under (directory ∷ directories) = do
  nodes ← Message.children directory 1
  here ← digests_under 2 nodes
  others ← nodes_under directories
  ok (here ++ others)

unfoldable pub tree_files : Bytes → Result (List Digest)
tree_files bytes = do
  tree ← message bytes
  root ← Message.child tree 1
  others ← Message.children tree 2
  nodes_under (kept root [] ++ others)

-- A request's fields are options: a digest or a result that is not there is `none`.
pub record GetActionResultRequest : Type 0 where
  pub action_digest : Option Digest

unfoldable pub parse_get : Bytes → Result GetActionResultRequest
parse_get bytes = do
  one ← message bytes
  action ← Message.child one 2
  ok (record { action_digest = Digest.of action })

unfoldable pub get_to_bytes : GetActionResultRequest → Bytes
get_to_bytes r = Digest.optional_to_bytes 2 r.action_digest

pub record UpdateActionResultRequest : Type 0 where
  pub action_digest : Option Digest
  pub action_result : Option ActionResult

abbrev last_result : List Bytes → Result (Option ActionResult)
last_result [] = ok none
last_result (v ∷ vs) = do r ← parse (last_or v vs); ok (some r)

unfoldable pub parse_update : Bytes → Result UpdateActionResultRequest
parse_update bytes = do
  one ← message bytes
  let results = Message.blobs one 3
  action ← Message.child one 2
  result ← last_result results
  ok (record { action_digest = Digest.of action; action_result = result })

abbrev result_to_bytes : Option ActionResult → Bytes
result_to_bytes none = []
result_to_bytes (some r) = Writer.submessage 3 r.raw

unfoldable pub update_to_bytes : UpdateActionResultRequest → Bytes
update_to_bytes r = Digest.optional_to_bytes 2 r.action_digest ++ result_to_bytes r.action_result
