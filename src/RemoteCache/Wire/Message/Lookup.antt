-- ===== src/RemoteCache/Wire/Message/Lookup.antt =====
-- What a parsed message finds under a number: that field's values, in the order they were written.
use tine.Base.{
  ℕ, ◌≡◌, List, [], ◌∷◌, ◌++◌, append-nil, append_assoc, Bytes, ◌==◌, if◌then◌else◌, arith,
}
use tine.RemoteCache.Outcome.{ok}
use tine.RemoteCache.Wire.Fields.{Value, Field, fields}
use tine.RemoteCache.Wire.Message.{ByNumber, Message, append_at, values_at, file_all, message}

-- The values of one number, in order.
abbrev pub under : ℕ → List Field → List Value
under number [] = []
under number ((n, value) ∷ others) =
    if n == number then value ∷ under number others else under number others

values_at-append_at :
    (number n : ℕ) (value : Value) (t : ByNumber)
    → values_at number (append_at n value t)
      ≡ (if n == number then values_at number t ++ value ∷ [] else values_at number t)
unfolding values_at append_at
values_at-append_at number n value [] = ground arith
values_at-append_at number n value ((m, vs) ∷ t) =
    ground (arith, values_at-append_at number n value t)

values_at-file_all :
    (number : ℕ) (t : ByNumber) (fs : List Field)
    → values_at number (file_all t fs) ≡ values_at number t ++ under number fs
unfolding file_all
values_at-file_all number t [] = rw append-nil
values_at-file_all number t ((n, value) ∷ fs) = ground (
  arith,
  values_at-file_all number (append_at n value t) fs,
  values_at-append_at number n value t,
  append_assoc (values_at number t) (value ∷ []) (under number fs),
)

-- The message that these fields make.
abbrev pub holding : Bytes → List Field → Message
holding bytes fs = record { bytes = bytes; by_number = file_all [] fs }

pub message-holding :
    (bs : Bytes) (fs : List Field) → fields bs ≡ ok fs → message bs ≡ ok (holding bs fs)
unfolding message
message-holding bs fs h = rw h

-- A message holds under a number that number's values, in the order of the fields.
pub values_at-holding :
    (number : ℕ) (bs : Bytes) (fs : List Field)
    → values_at number (holding bs fs).by_number ≡ under number fs
unfolding values_at
values_at-holding number bs fs = unfold values_at in values_at-file_all number [] fs
