-- ===== src/RemoteCache/Bucket.antt =====
-- The `Reader` and the `S3Writer` of remote_cache/bucket.py. What urllib's urlopen answers is the
-- parameter `World`, with the clocks; the headers that sign a request to S3 are not modelled.
pub mod Replies
use tine.Base.{
  ℕ, ◌+◌, ◌*◌, Bool, true, false, ◌||◌, Option, none, some, [], ◌∷◌, ◌++◌, Bytes, length, take, ltb,
  leb, ◌==◌, if◌then◌else◌,
}
use tine.Base.Text.{Text, text_of}
use tine.RemoteCache.Outcome.{ok, err, url_error, too_large}
use tine.RemoteCache.Exec.{Exec, pure, raise, ◌>>=◌}

-- A response with the length that it declares, 0 where it declares none, and its whole body; an
-- `HTTPError` with its code; any other `OSError`.
pub data Reply : Type 0 where
  answered : ℕ → Bytes → Reply
  http_error : ℕ → Reply
  os_error : Reply

pub record World (Time : Type 0) : Type 1 where
  pub State : Type 0
  -- urlopen of a GET, of a PUT of these bytes, and of the PUT that copies a key onto itself
  pub open_url : Text → State → Reply × State
  pub send : Text → Bytes → State → Reply × State
  pub copy : Text → State → Reply × State
  -- time.monotonic() and datetime.now(UTC)
  pub monotonic : State → ℕ × State
  pub now : State → Time × State

-- What a reader and a writer keep between them: `_resting_until`, and the world.
pub record Net (State : Type 0) : Type 0 where
  pub resting_until : ℕ
  pub world : State

-- SMALL_OBJECT
abbrev pub small_object : ℕ
small_object = 4 * 1024 * 1024

module _ {Time : Type 0} (w : World Time) where
  open w use {State}

  -- A call on the world.
  abbrev pub ask : {A : Type 0} → (State → A × State) → Exec (Net State) A
  ask call s = let (a, world) = call s.world in (ok a, record s { world = world })

  module _ (base_url : Text) (cooldown : ℕ) where
    abbrev pub url_of : Text → Text
    url_of key = base_url ++ (b'/' ∷ key)

    -- response.read(limit + 1), if what is declared is within the limit
    abbrev pub body_within : ℕ → ℕ → Bytes → Bytes
    body_within limit declared body = if leb declared limit then take (limit + 1) body else []

    abbrev pub received : ℕ → Reply → Exec (Net State) (Option Bytes)
    received limit (answered declared body) =
        let got = body_within limit declared body in
        if ltb limit declared || ltb limit (length got) then raise too_large else pure (some got)
    received limit (http_error code) = if code == 404 then pure none else raise url_error
    received limit os_error = do
      now ← ask w.monotonic
      λ s. (err url_error, record s { resting_until = now + cooldown })

    -- `Reader.get`
    unfoldable pub get : Text → ℕ → Exec (Net State) (Option Bytes)
    get key limit = do
      now ← ask w.monotonic
      λ s.
          (if ltb now s.resting_until
              then raise url_error
              else (do reply ← ask (w.open_url (url_of key)); received limit reply))
            s

  abbrev put_reply : Reply → Exec (Net State) (Unit {0})
  put_reply (answered declared body) = pure tt
  put_reply (http_error code) = raise url_error
  put_reply os_error = raise url_error

  -- `S3Writer.put`
  unfoldable pub put : Text → Bytes → Exec (Net State) (Unit {0})
  put key content = do reply ← ask (w.send key content); put_reply reply

  abbrev refresh_reply : Reply → Exec (Net State) Bool
  refresh_reply (answered declared body) = pure true
  refresh_reply (http_error code) = if code == 404 then pure false else raise url_error
  refresh_reply os_error = raise url_error

  -- `S3Writer.refresh`
  unfoldable pub refresh : Text → Exec (Net State) Bool
  refresh key = do reply ← ask (w.copy key); refresh_reply reply
